-- ===== src/Replication/Driver/Report.antt =====
-- The reports on an attempt and its errors: fs.report, attempt.report and errorReport.
use zrepl.Prelude.{
  Bool, true, false, not, ◌&&◌, ◌||◌, if◌then◌else◌, Option, none, some, List, [], ◌∷◌, length,
  keep_if, ltb, SliceSort,
}
use zrepl.Replication.Driver.{TimedError, Fs, is_some}

-- FilesystemState
pub data FilesystemState : Type 0 where
  fs_planning fs_planning_errored fs_stepping fs_stepping_errored fs_done : FilesystemState

-- AttemptState
pub data AttemptState : Type 0 where
  attempt_planning attempt_planning_error attempt_fan_out_fss attempt_fan_out_error attempt_done :
      AttemptState

-- The state and the errors of a FilesystemReport.
pub record FilesystemReport : Type 0 where
  pub state : FilesystemState
  pub plan_error : Option TimedError
  pub step_error : Option TimedError

-- FilesystemReport.Error
abbrev pub error_of : FilesystemState → Option TimedError → Option TimedError → Option TimedError
error_of fs_planning p s = none
error_of fs_planning_errored p s = p
error_of fs_stepping p s = none
error_of fs_stepping_errored p s = s
error_of fs_done p s = none

abbrev pub report_error : FilesystemReport → Option TimedError
report_error r = error_of r.state r.plan_error r.step_error

-- The attempt: `fss` is none where the slice is nil.
pub record Attempt (S : Type 0) : Type 0 where
  pub plan_err : Option TimedError
  pub fss : Option (List (Fs S))
  pub finished : Bool

abbrev pub cons_error : Option TimedError → List TimedError → List TimedError
cons_error none es = es
cons_error (some e) es = e ∷ es

module _ {S : Type 0} where
  unfoldable pub fs_state : Fs S → FilesystemState
  fs_state f =
      if is_some f.planning_err
      then fs_planning_errored
      else if not f.planning_done
      then fs_planning
      else if is_some f.step_err
      then fs_stepping_errored
      else if ltb f.step (length f.steps)
      then fs_stepping
      else fs_done

  -- fs.report
  abbrev pub fs_report : Fs S → FilesystemReport
  fs_report f = record { state = fs_state f; plan_error = f.planning_err; step_error = f.step_err }

  -- fsWithError
  unfoldable pub fs_with_error : List (Fs S) → Bool
  unfolding fs_state
  fs_with_error [] = false
  fs_with_error (f ∷ fs) = is_some (report_error (fs_report f)) || fs_with_error fs

  -- The state in attempt.report; `none` is the panic.
  unfoldable pub state_of : Option TimedError → Option (List (Fs S)) → Bool → Option AttemptState
  unfolding fs_with_error
  state_of none none finished = some attempt_planning
  state_of (some e) none finished = some attempt_planning_error
  state_of none (some fss) false = some attempt_fan_out_fss
  state_of none (some fss) true =
      some (if fs_with_error fss then attempt_fan_out_error else attempt_done)
  state_of (some e) (some fss) finished = none

  -- The loop over the filesystems in errorReport.
  unfoldable pub fs_errors : List (Fs S) → List TimedError
  fs_errors [] = []
  fs_errors (f ∷ fs) =
      let rest = fs_errors fs in
      if f.planning_done && is_some f.planning_err
      then cons_error f.planning_err rest
      else if f.planning_done
      then cons_error f.step_err rest
      else rest

  abbrev pub listed : Option (List (Fs S)) → List (Fs S)
  listed none = []
  listed (some fss) = fss

  -- `flattened` of errorReport
  abbrev pub flattened : Attempt S → List TimedError
  flattened a = cons_error a.plan_err (fs_errors (listed a.fss))

-- errorClass
pub data ErrorClass : Type 0 where
  permanent temporary_connectivity_related : ErrorClass

unfoldable pub class_of : TimedError → ErrorClass
class_of e =
    if e.is_timeout
    then temporary_connectivity_related
    else if e.is_unavailable
    then temporary_connectivity_related
    else permanent

abbrev pub is_temporary : ErrorClass → Bool
is_temporary permanent = false
is_temporary temporary_connectivity_related = true

-- `less` of the sort by time
unfoldable pub after : TimedError → TimedError → Bool
after a b = ltb b.time a.time

-- The start of byClass[class].
abbrev pub in_class : Bool → List TimedError → List TimedError
in_class temporary es =
    keep_if (λ e. if temporary then is_temporary (class_of e) else not (is_temporary (class_of e)))
      es

-- One round of the loop in MostRecent.
unfoldable pub newer :
    Option (TimedError × ErrorClass)
    → ErrorClass
    → List TimedError
    → Option (TimedError × ErrorClass)
newer found class [] = found
newer none class (e ∷ es) = some (e, class)
newer (some (f, c)) class (e ∷ es) = if ltb f.time e.time then some (e, class) else some (f, c)

-- errorReport, then MostRecent: the order in which Go walks the map is `temporary_first`.
unfoldable pub most_recent :
    SliceSort after → (temporary_first : Bool) → List TimedError → Option (TimedError × ErrorClass)
unfolding newer class_of
most_recent slice true es =
    newer (newer none temporary_connectivity_related (slice.sort (in_class true es))) permanent
      (slice.sort (in_class false es))
most_recent slice false es =
    newer (newer none permanent (slice.sort (in_class false es))) temporary_connectivity_related
      (slice.sort (in_class true es))
