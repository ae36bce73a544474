-- ===== src/Zfs/Destroy/Sound.antt =====
-- A batch keeps the run sound, whichever way its handling takes.
use Prim.Native.String.{String}
use zrepl.Prelude.{
  ℕ, zero, suc, ◌/◌, ◌≡◌, refl, inl, inr, false, not, Option, none, some, List, length, take, drop,
  keep_if, leb, All, All-map, All-take, All-drop, All-keep_if, Bool-cases, Option-cases, subst,
}
use zrepl.Zfs.Destroy.{
  DestroySnapOp, DestroyError, Run, Destroyer, set_errors, destroy_seq, try_batch, is_among,
  destroy_stripped, destroy_batch, argument_list_too_long, failed, undestroyable,
}
use zrepl.Zfs.Destroy.Confirmed.{IsSound, try_batch-Tried, set_errors-IsSound, destroy_seq-IsSound}

module _ (P : DestroySnapOp → Type 0) where
  destroy_stripped-IsSound :
      (d : Destroyer) (names : List String) (ops : List DestroySnapOp) (s : Run)
      (tried : Option (Option DestroyError × Run)) (s' : Run)
      → try_batch d (keep_if (λ o. not (is_among names o)) ops) s ≡ tried
      → All P ops
      → IsSound P s
      → destroy_stripped d names ops s ≡ some s'
      → IsSound P s'
  unfolding destroy_stripped
  destroy_stripped-IsSound d names ops s none s' r h sound e = cc
  destroy_stripped-IsSound d names ops s (some (some x, s1)) s' r h sound e =
      let stripped = keep_if (λ o. not (is_among names o)) ops in
      let ends : destroy_seq d ops s1 ≡ s' = cc in
      let (fine, same) =
        try_batch-Tried P d stripped s (some x) s1 (All-keep_if P _ ops h) sound r in
      subst (IsSound P) ends (destroy_seq-IsSound P d ops s1 h fine)
  destroy_stripped-IsSound d names ops s (some (none, s1)) s' r h sound e =
      let stripped = keep_if (λ o. not (is_among names o)) ops in
      let remaining = keep_if (is_among names) ops in
      let ends : destroy_seq d remaining (set_errors stripped none s1) ≡ s' = cc in
      let (fine, all) = try_batch-Tried P d stripped s none s1 (All-keep_if P _ ops h) sound r in
      let told =
        set_errors-IsSound P stripped none s1 (All-map (λ o k x. k) stripped (all refl)) fine in
      subst (IsSound P) ends (
        destroy_seq-IsSound P d remaining (set_errors stripped none s1) (All-keep_if P _ ops h)
          told)

  abbrev KeepsSound : ℕ → Destroyer → Type 0
  KeepsSound fuel d =
      (ops : List DestroySnapOp) (s s' : Run)
      → All P ops
      → IsSound P s
      → destroy_batch fuel d ops s ≡ some s'
      → IsSound P s'

  after_try-IsSound :
      (fuel : ℕ) (d : Destroyer) (ops : List DestroySnapOp) (s : Run)
      (tried : Option (Option DestroyError × Run)) (s' : Run)
      → KeepsSound fuel d
      → leb (length ops) 1 ≡ false
      → try_batch d ops s ≡ tried
      → All P ops
      → IsSound P s
      → destroy_batch (suc fuel) d ops s ≡ some s'
      → IsSound P s'
  unfolding destroy_batch
  after_try-IsSound fuel d ops s none s' rec many r h sound e = cc
  after_try-IsSound fuel d ops s (some (none, s1)) s' rec many r h sound e =
      let ends : set_errors ops none s1 ≡ s' = cc in
      let (fine, all) = try_batch-Tried P d ops s none s1 h sound r in
      subst (IsSound P) ends
        (set_errors-IsSound P ops none s1 (All-map (λ o k x. k) ops (all refl)) fine)
  after_try-IsSound fuel d ops s (some (some argument_list_too_long, s1)) s' rec many r h sound e =
      let (fine, all) = try_batch-Tried P d ops s (some argument_list_too_long) s1 h sound r in
      let n = length ops / 2 in
      elim (Option-cases (destroy_batch fuel d (take n ops) s1)) [
        | inl f ↦ cc
        | inr (s2, f) ↦
            rec (drop n ops) s2 s' (All-drop P n ops h)
              (rec (take n ops) s1 s2 (All-take P n ops h) fine f) (cc)
      ]
  after_try-IsSound fuel d ops s (some (some (undestroyable names), s1)) s' rec many r h sound e =
      let (fine, all) = try_batch-Tried P d ops s (some (undestroyable names)) s1 h sound r in
      destroy_stripped-IsSound d names ops s1 _ s' refl h fine (cc)
  after_try-IsSound fuel d ops s (some (some failed, s1)) s' rec many r h sound e =
      let (fine, all) = try_batch-Tried P d ops s (some failed) s1 h sound r in
      let ends : destroy_seq d ops s1 ≡ s' = cc in
      subst (IsSound P) ends (destroy_seq-IsSound P d ops s1 h fine)

  pub destroy_batch-IsSound : (fuel : ℕ) (d : Destroyer) → KeepsSound fuel d
  unfolding destroy_batch
  destroy_batch-IsSound zero d ops s s' h sound e = cc
  destroy_batch-IsSound (suc fuel) d ops s s' h sound e = elim (Bool-cases (leb (length ops) 1)) [
    | inl few ↦
        let ends : destroy_seq d ops s ≡ s' = cc in
        subst (IsSound P) ends (destroy_seq-IsSound P d ops s h sound)
    | inr many ↦
        after_try-IsSound fuel d ops s _ s' (destroy_batch-IsSound fuel d) many refl h sound e
  ]
