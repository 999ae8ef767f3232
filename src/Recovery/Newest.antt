-- ===== src/Recovery/Newest.antt =====
-- Which copy `prepare` of src/usagebassoon/snapshot/reader.py chooses.
use mathlib.Core.Path.{subst}
use usagebassoon.Prelude.{
  ℕ, ◌≤◌, String, Bool, true, false, List, [], ◌∷◌, ◌||◌, not, leb, any, All, All-imp, is_some,
  is_empty, place, sort_by, string_eq, nat_eq, nat_ord, string_ord, Result, ok, >>=-eq-ok, ◌≡◌,
  refl, arith, ◌⊎◌, ◌++◌, Bool-cases, inl, inr,
}
use usagebassoon.Usage.{}
use usagebassoon.Recovery.{
  Selection, Archive, Candidate, Notice, Download, complete, disk_full, unreadable, Attempt,
  remarks, unreadable_copy, scope_of, discover_all, order, newest_first, candidates, prepare_first,
  prepare,
}

-- No copy is captured after one that stands before it.
Descending : List Candidate → Type 0
Descending [] = Unit
Descending (c ∷ cs) = All (λ d. d.captured_at ≤ c.captured_at) cs × Descending cs

order-le : (a b : Candidate) → order a b ≡ true → a.captured_at ≤ b.captured_at
unfolding order
order-le a b h = ground (arith, h)

order-ge : (a b : Candidate) → order a b ≡ false → b.captured_at ≤ a.captured_at
unfolding order
order-ge a b h = ground (arith, h)

All-place_below :
    (n : ℕ) (a : Candidate) (cs : List Candidate)
    → a.captured_at ≤ n
    → All (λ d. d.captured_at ≤ n) cs
    → All (λ d. d.captured_at ≤ n) (place (λ x y. order y x) a cs)
unfolding place
All-place_below n a [] h hs = (h, tt)
All-place_below n a (c ∷ cs) h hs = elim (Bool-cases (order c a)) [
  | inl before ↦ rw before (h, hs)
  | inr after ↦ rw after (hs.0, All-place_below n a cs h hs.1)
]

place-Descending :
    (a : Candidate) (cs : List Candidate)
    → Descending cs
    → Descending (place (λ x y. order y x) a cs)
unfolding place Descending
place-Descending a [] h = (tt, tt)
place-Descending a (c ∷ cs) h = elim (Bool-cases (order c a)) [
  | inl before ↦
      let le = order-le c a before in
      rw before (
        (
          le,
          All-imp (λ (d : Candidate) (g : d.captured_at ≤ c.captured_at). omega (arith, le)) cs h.0,
        ),
        h,
      )
  | inr after ↦
      rw after
        (All-place_below c.captured_at a cs (order-ge c a after) h.0, place-Descending a cs h.1)
]

newest_first-Descending : (cs : List Candidate) → Descending (newest_first cs)
unfolding newest_first sort_by Descending
newest_first-Descending [] = tt
newest_first-Descending (c ∷ cs) = place-Descending c (newest_first cs) (newest_first-Descending cs)

module _ {P : Type 0} where
  -- The candidate's files can be downloaded and are valid.
  abbrev pub is_usable : Attempt P → Bool
  is_usable attempt = elim attempt.download [
    | complete files ↦ true
    | disk_full ↦ false
    | unreadable e ↦ false
  ]

  -- The candidate is refused without ending the recovery.
  abbrev pub is_passed_over : Attempt P → Bool
  is_passed_over attempt = elim attempt.download [
    | complete files ↦ false
    | disk_full ↦ false
    | unreadable e ↦ not (is_some attempt.removed)
  ]

  Download-cases :
      (d : Download P)
      → ((files : P) × (d ≡ complete files))
        ⊎ ((d ≡ disk_full) ⊎ ((e : String) × (d ≡ unreadable e)))
  Download-cases (complete files) = inl (files, refl)
  Download-cases disk_full = inr (inl refl)
  Download-cases (unreadable e) = inr (inr (e, refl))

  -- A candidate that is not usable is refused, or the loop goes on after it.
  prepare_first-passes :
      (answers : Candidate → Attempt P) (automatic : Bool) (c : Candidate) (cs : List Candidate)
      (notices : List Notice) (e : String) (result : Candidate × P × List Notice)
      → (answers c).download ≡ unreadable e
      → prepare_first answers automatic (c ∷ cs) notices ≡ ok result
      → (later : List Notice) × (prepare_first answers automatic cs later ≡ ok result)
  unfolding prepare_first
  prepare_first-passes answers automatic c cs notices e result refused found = (
    (notices ++ remarks c (answers c)) ++ unreadable_copy c e ∷ [],
    ground (arith, refused, found),
  )

  prepare_first-newest :
      (answers : Candidate → Attempt P) (automatic : Bool) (cs : List Candidate)
      (notices : List Notice) (chosen : Candidate) (files : P) (warnings : List Notice)
      → Descending cs
      → prepare_first answers automatic cs notices ≡ ok (chosen, files, warnings)
      → ((answers chosen).download ≡ complete files)
        × All (λ c. (not (is_usable (answers c)) || leb c.captured_at chosen.captured_at) ≡ true) cs
  unfolding prepare_first Descending
  prepare_first-newest answers automatic [] notices chosen files warnings h found = cc
  prepare_first-newest answers automatic (c ∷ cs) notices chosen files warnings h found =
      elim (Download-cases (answers c).download) [
        | inl (f, got) ↦
            let same : c.captured_at ≡ chosen.captured_at = ground (arith, found, got) in
            (
              ground (arith, found, got),
              (
                ground (arith, same),
                All-imp
                    (λ (d : Candidate) (g : d.captured_at ≤ c.captured_at). ground (arith, g, same))
                    cs h.0,
              ),
            )
        | inr (inl full) ↦ ground (arith, found, full)
        | inr (inr (e, refused)) ↦
            let (later, rest) =
              prepare_first-passes answers automatic c cs notices e _ refused found in
            let ih =
              prepare_first-newest answers automatic cs later chosen files warnings h.1 rest in
            (ih.0, (ground (arith, refused), ih.1))
      ]

  prepare_first-total :
      (answers : Candidate → Attempt P) (cs : List Candidate) (notices : List Notice)
      → All (λ c. (is_usable (answers c) || is_passed_over (answers c)) ≡ true) cs
      → any (λ c. is_usable (answers c)) cs ≡ true
      → (result : Candidate × P × List Notice) × (prepare_first answers true cs notices ≡ ok result)
  unfolding prepare_first
  prepare_first-total answers [] notices h one = cc
  prepare_first-total answers (c ∷ cs) notices h one = elim (Download-cases (answers c).download) [
    | inl (f, got) ↦ ((c, f, notices ++ remarks c (answers c)), rw (got, prepare_first) refl)
    | inr (inl full) ↦ absurd (ground (arith, h.0, full))
    | inr (inr (e, refused)) ↦
        let later = (notices ++ remarks c (answers c)) ++ unreadable_copy c e ∷ [] in
        let (result, found) =
          prepare_first-total answers cs later h.1 (ground (arith, one, refused)) in
        (result, ground (arith, refused, h.0, found))
  ]

-- What `candidates` lists is in descending order of the capture times.
candidates-Descending :
    (resolve : String → Result String Archive) (locations : List (String × Result String Archive))
    (selection : Selection) (cs : List Candidate) (automatic : Bool) (notices : List Notice)
    → candidates resolve locations selection false true ≡ ok (cs, automatic, notices)
    → Descending cs
unfolding candidates
candidates-Descending resolve locations selection cs automatic notices h =
    let (scope, _, after) = >>=-eq-ok (scope_of resolve locations selection) _ h in
    let (all, _, last) =
      >>=-eq-ok (discover_all scope.automatic true scope.exact scope.archives scope.noticed) _
        after in
    elim (Bool-cases (is_empty all.0)) [
      | inl none_found ↦ ground (arith, last, none_found)
      | inr some_found ↦
          let same : newest_first all.0 ≡ cs = ground (arith, last, some_found) in
          subst Descending same (newest_first-Descending all.0)
    ]

module _ {P : Type 0} (resolve : String → Result String Archive)
    (locations : List (String × Result String Archive)) (answers : Candidate → Attempt P)
    (selection : Selection) where
  -- The copy that a recovery chooses was downloaded and is valid, and no usable copy that was found is
  -- captured after it.
  pub prepare-newest :
      (cs : List Candidate) (automatic : Bool) (found warnings : List Notice) (chosen : Candidate)
      (files : P)
      → candidates resolve locations selection false true ≡ ok (cs, automatic, found)
      → prepare resolve locations answers selection ≡ ok (chosen, files, warnings)
      → ((answers chosen).download ≡ complete files)
        × All (λ c. (not (is_usable (answers c)) || leb c.captured_at chosen.captured_at) ≡ true) cs
  unfolding prepare
  prepare-newest cs automatic found warnings chosen files listed prepared =
      prepare_first-newest answers automatic cs found chosen files warnings
        (candidates-Descending resolve locations selection cs automatic found listed)
        (rw listed at prepared)

  -- An automatic recovery returns if some copy is usable, and each that is not is refused without ending
  -- it: its files are removed, and the disk is not full.
  pub prepare-total :
      (cs : List Candidate) (found : List Notice)
      → candidates resolve locations selection false true ≡ ok (cs, true, found)
      → All (λ c. (is_usable (answers c) || is_passed_over (answers c)) ≡ true) cs
      → any (λ c. is_usable (answers c)) cs ≡ true
      → (result : Candidate × P × List Notice) × (prepare resolve locations answers selection
          ≡ ok result)
  unfolding prepare
  prepare-total cs found listed h one = rw listed (prepare_first-total answers cs found h one)
