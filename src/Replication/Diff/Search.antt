-- ===== src/Replication/Diff/Search.antt =====
-- What the search for the most recent common ancestor finds.
use mathlib.Core.List.Perm
use zrepl.Prelude.{
  ℕ, ◌<◌, ◌≡◌, ◌≢◌, ◌∙◌, inl, inr, Option, none, some, List, Perm, length, get_elem?, get_elem?-lt,
  scan_down, Hit, scan_down-Hit, scan_down-none, arith, SliceSort, IsSorted,
  slice_is_sorted-IsSorted, Option-cases,
}
use zrepl.Replication.Version.{FilesystemVersion, version_less}
use zrepl.Replication.Version.Order.{version_less-IsOrder}
use zrepl.Replication.Diff.{Candidate, match_at, find_candidate, sort_version_list}

module _ (slice : SliceSort version_less) where
  pub sort_version_list-perm : (vs : List FilesystemVersion) → Perm (sort_version_list slice vs) vs
  unfolding sort_version_list
  sort_version_list-perm vs = ground (arith, Perm.refl vs, slice.sort-perm vs)

  pub sort_version_list-IsSorted :
      (vs : List FilesystemVersion) → IsSorted version_less (sort_version_list slice vs)
  unfolding sort_version_list
  sort_version_list-IsSorted vs =
      ground (
        arith,
        slice_is_sorted-IsSorted version_less version_less-IsOrder vs,
        slice.sort-IsSorted vs,
      )

-- Nothing on the receiver after `r`, and nothing on the sender after `s` with the ancestor's guid.
pub record MostRecentCommon (receiver sender : List FilesystemVersion) (c : Candidate)
    : Type 0 where
  pub on_receiver : FilesystemVersion
  pub sender_at : get_elem? sender c.s ≡ some c.ancestor
  pub receiver_at : get_elem? receiver c.r ≡ some on_receiver
  pub same_guid : c.ancestor.guid ≡ on_receiver.guid
  pub newer_receiver :
      (r s : ℕ) (x y : FilesystemVersion)
      → c.r < r
      → get_elem? sender s ≡ some x
      → get_elem? receiver r ≡ some y
      → x.guid ≢ y.guid
  pub newer_sender :
      (s : ℕ) (x : FilesystemVersion)
      → c.s < s
      → get_elem? sender s ≡ some x
      → x.guid ≢ c.ancestor.guid

-- No version of the sender has the guid of a version of the receiver.
abbrev pub NoneCommon : List FilesystemVersion → List FilesystemVersion → Type 0
NoneCommon receiver sender =
    (r s : ℕ) (x y : FilesystemVersion)
    → get_elem? sender s ≡ some x
    → get_elem? receiver r ≡ some y
    → x.guid ≢ y.guid

module _ (receiver sender : List FilesystemVersion) where
  match_at-some :
      (r s : ℕ) (c : Candidate)
      → match_at receiver sender r s ≡ some c
      → (y : FilesystemVersion) × (c.r ≡ r)
        × (c.s ≡ s)
        × (get_elem? sender s ≡ some c.ancestor)
        × (get_elem? receiver r ≡ some y)
        × (c.ancestor.guid ≡ y.guid)
  unfolding match_at
  match_at-some r s c h = elim (Option-cases (get_elem? receiver r)) [
    | inl e ↦ absurd (ground arith)
    | inr (y, e) ↦ (y, ground arith, ground arith, ground arith, e, ground arith)
  ]

  match_at-none :
      (r s : ℕ) (x y : FilesystemVersion)
      → get_elem? sender s ≡ some x
      → get_elem? receiver r ≡ some y
      → match_at receiver sender r s ≡ none
      → x.guid ≢ y.guid
  unfolding match_at
  match_at-none r s x y hx hy h e = ground arith

  row : ℕ → Option Candidate
  row r = scan_down (length sender) (λ s. match_at receiver sender r s)

  row-none :
      (r s : ℕ) (x y : FilesystemVersion)
      → row r ≡ none
      → get_elem? sender s ≡ some x
      → get_elem? receiver r ≡ some y
      → x.guid ≢ y.guid
  unfolding row
  row-none r s x y h hx hy =
      match_at-none r s x y hx hy
        (scan_down-none (length sender) _ h s (get_elem?-lt sender s x hx))

  pub find_candidate-none : find_candidate receiver sender ≡ none → NoneCommon receiver sender
  unfolding find_candidate row
  find_candidate-none h r s x y hx hy =
      row-none r s x y (scan_down-none (length receiver) row h r (get_elem?-lt receiver r y hy)) hx
        hy

  pub find_candidate-some :
      (c : Candidate) → find_candidate receiver sender ≡ some c → MostRecentCommon receiver sender c
  unfolding find_candidate row
  find_candidate-some c h =
      let outer : Hit (length receiver) row c = scan_down-Hit (length receiver) row c h in
      let inner : Hit (length sender) (match_at receiver sender outer.index) c =
        scan_down-Hit (length sender) _ c outer.found in
      let (y, er, es, hx, hy, g) = match_at-some outer.index inner.index c inner.found in
      record {
        on_receiver = y;
        sender_at = rw es hx;
        receiver_at = rw er hy;
        same_guid = g;
        newer_receiver = λ r s x y' lt hx' hy'.
            row-none r s x y' (outer.later r (ground arith) (get_elem?-lt receiver r y' hy')) hx'
              hy';
        newer_sender = λ s x lt hx'. λ same.
            match_at-none outer.index s x y hx' hy
              (inner.later s (ground arith) (get_elem?-lt sender s x hx')) (same ∙ g);
      }
