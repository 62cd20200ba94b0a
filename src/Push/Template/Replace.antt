-- ===== src/Push/Template/Replace.antt =====
-- `str_replace_inplace` against a reference that replaces in one pass over the characters.
use esp32c3_sms_gateway.Prelude.{
  ℕ, zero, suc, ◌+◌, ◌-◌, ◌≤◌, ◌<◌, ◌≡◌, refl, sym, ◌⊎◌, ap, ◌∙◌, arith, Bool, true, false,
  Bool-cases, inl, inr, ◌||◌, ◌&&◌, Option-cases, none, some, List, [], ◌∷◌, ◌++◌, length,
  length-append, length-drop, length-take, take, drop, ltb, if◌then◌else◌,
}
use esp32c3_sms_gateway.Prelude.Result.{ok, fault}
use esp32c3_sms_gateway.Prelude.Text.{starts, find_str}
use esp32c3_sms_gateway.Push.Template.{replace_loop, copy_back, str_replace_inplace}
use mathlib.Core.Bool.{or-true, or-false}
use mathlib.Core.List.{append-nil, append_assoc}

-- The text with every occurrence of the needle replaced; `skip` characters belong to one just replaced.
unfoldable pub replace_all : List ℕ → List ℕ → ℕ → List ℕ → List ℕ
replace_all needle replacement skip [] = []
replace_all needle replacement (suc skip) (c ∷ s) = replace_all needle replacement skip s
replace_all needle replacement zero (c ∷ s) =
    let behind = replace_all needle replacement (length needle - 1) s in
    let rest = replace_all needle replacement 0 s in
    if starts needle (c ∷ s) then replacement ++ behind else c ∷ rest

-- Whether the needle occurs.
unfoldable pub occurs : List ℕ → List ℕ → Bool
occurs needle s = elim (find_str needle s) [ none ↦ false | some p ↦ true ]

replace_all-skip :
    (needle replacement : List ℕ) (skip : ℕ) (s : List ℕ)
    → replace_all needle replacement skip s ≡ replace_all needle replacement 0 (drop skip s)
unfolding replace_all
replace_all-skip needle replacement zero s = refl
replace_all-skip needle replacement (suc skip) [] = refl
replace_all-skip needle replacement (suc skip) (c ∷ s) = replace_all-skip needle replacement skip s

replace_all-none :
    (needle replacement s : List ℕ)
    → find_str needle s ≡ none
    → replace_all needle replacement 0 s ≡ s
unfolding replace_all find_str
replace_all-none needle replacement [] e = refl
replace_all-none needle replacement (c ∷ s) e =
    ground (arith, e, replace_all-none needle replacement s)

-- The text up to the first occurrence, which `find_str` returns with what follows.
record FoundAt (needle replacement s p : List ℕ) : Type 0 where
  shorter : length p ≤ length s
  some_text : 0 < length p
  split :
      replace_all needle replacement 0 s
      ≡ take (length s - length p) s
        ++ (replacement ++ replace_all needle replacement 0 (drop (length needle) p))

find_str_here :
    (needle : List ℕ) (c : ℕ) (s : List ℕ)
    → starts needle (c ∷ s) ≡ true
    → find_str needle (c ∷ s) ≡ some (c ∷ s)
unfolding find_str
find_str_here needle c s e = ground (arith, e)

find_str_later :
    (needle : List ℕ) (c : ℕ) (s : List ℕ)
    → starts needle (c ∷ s) ≡ false
    → find_str needle (c ∷ s) ≡ find_str needle s
unfolding find_str
find_str_later needle c s e = ground (arith, e)

FoundAt-here :
    (n : ℕ) (ns replacement : List ℕ) (c : ℕ) (s : List ℕ)
    → starts (n ∷ ns) (c ∷ s) ≡ true
    → FoundAt (n ∷ ns) replacement (c ∷ s) (c ∷ s)
unfolding replace_all
FoundAt-here n ns replacement c s e =
    let whole : length (c ∷ s) - length (c ∷ s) ≡ 0 = omega arith in
    let last : suc (length ns) - 1 ≡ length ns = omega arith in
    record {
      shorter = omega arith;
      some_text = omega arith;
      split =
          rw (whole, e, last)
            (ap (λ t. replacement ++ t) (replace_all-skip (n ∷ ns) replacement (length ns) s));
    }

FoundAt-later :
    (needle replacement : List ℕ) (c : ℕ) (s p : List ℕ)
    → starts needle (c ∷ s) ≡ false
    → FoundAt needle replacement s p
    → FoundAt needle replacement (c ∷ s) p
unfolding replace_all
FoundAt-later needle replacement c s p e r =
    let one_more : length (c ∷ s) - length p ≡ suc (length s - length p) =
      omega (arith, r.shorter) in
    record {
      shorter = omega (arith, r.shorter);
      some_text = r.some_text;
      split = rw (one_more, e) (ap (λ t. c ∷ t) r.split);
    }

find_str-FoundAt :
    (n : ℕ) (ns replacement s p : List ℕ)
    → find_str (n ∷ ns) s ≡ some p
    → FoundAt (n ∷ ns) replacement s p
unfolding find_str starts
find_str-FoundAt n ns replacement [] p e = cc
find_str-FoundAt n ns replacement (c ∷ s) p e = elim (Bool-cases (starts (n ∷ ns) (c ∷ s))) [
  | inl here ↦
      let first : some (c ∷ s) ≡ some p = sym (find_str_here (n ∷ ns) c s here) ∙ e in
      let same : c ∷ s ≡ p = cc in rw (← same) (FoundAt-here n ns replacement c s here)
  | inr later ↦
      FoundAt-later (n ∷ ns) replacement c s p later
        (find_str-FoundAt n ns replacement s p (sym (find_str_later (n ∷ ns) c s later) ∙ e))
]

last_text :
    (workspace_max : ℕ) (tmp out : List ℕ)
    → length out + length tmp < workspace_max
    → (if ltb 0 (length tmp) && ltb (length out + length tmp) workspace_max
        then out ++ tmp
        else out)
      ≡ out ++ tmp
last_text workspace_max [] out fits = sym (append-nil out)
last_text workspace_max (c ∷ tmp) out fits = ground arith

none-occurs : (needle s : List ℕ) → find_str needle s ≡ none → occurs needle s ≡ false
unfolding occurs
none-occurs needle s e = ground (arith, e)

occurs-none : (needle s : List ℕ) → occurs needle s ≡ false → find_str needle s ≡ none
unfolding occurs
occurs-none needle s e = elim (Option-cases (find_str needle s)) [
  | inl absent ↦ absent
  | inr (p, found) ↦ ground (arith, found)
]

module _ (n : ℕ) (ns replacement : List ℕ) (workspace_max : ℕ) where
  -- The loop builds the reference's text where the workspace has room for it.
  replace_loop-replace_all :
      (fuel : ℕ) (tmp out : List ℕ) (found : Bool)
      → length tmp < fuel
      → length out + length (replace_all (n ∷ ns) replacement 0 tmp) < workspace_max
      → replace_loop fuel (n ∷ ns) replacement workspace_max tmp out found
        ≡ ok (out ++ replace_all (n ∷ ns) replacement 0 tmp, found || occurs (n ∷ ns) tmp)
  unfolding replace_loop occurs
  replace_loop-replace_all zero tmp out found enough fits = absurd (omega arith)
  replace_loop-replace_all (suc fuel) tmp out found enough fits =
      elim (Option-cases (find_str (n ∷ ns) tmp)) [
        | inl e ↦
            let same = replace_all-none (n ∷ ns) replacement tmp e in
            let fits' : length out + length tmp < workspace_max = rw⁻¹ same fits in
            let absent = none-occurs (n ∷ ns) tmp e in
            rw
              (absent, or-false found, e, same, last_text workspace_max tmp out fits', replace_loop)
              refl
        | inr (p, e) ↦
            let r = find_str-FoundAt n ns replacement tmp p e in
            let before = take (length tmp - length p) tmp in
            let after = drop (length (n ∷ ns)) p in
            let cut : length before ≡ length tmp - length p =
              omega (arith, length-take (length tmp - length p) tmp) in
            let sum : length (replace_all (n ∷ ns) replacement 0 tmp)
                ≡ length before
                  + (length replacement + length (replace_all (n ∷ ns) replacement 0 after)) =
              ap length r.split
              ∙ length-append before _
              ∙ ap (λ t. length before + t) (length-append replacement _) in
            let joined : out ++ replace_all (n ∷ ns) replacement 0 tmp
                ≡ (out ++ (before ++ replacement)) ++ replace_all (n ∷ ns) replacement 0 after =
              rw r.split (simp append_assoc) in
            let later =
              replace_loop-replace_all fuel after (out ++ (before ++ replacement)) true
                (omega (arith, length-drop (length (n ∷ ns)) p, r.shorter, r.some_text))
                (omega (
                  arith,
                  sum,
                  length-append out (before ++ replacement),
                  length-append before replacement,
                )) in
            ground (arith, e, cut, sum, later, joined, or-true found)
      ]

module _ (target : List ℕ) (n : ℕ) (ns replacement : List ℕ) (max_len : ℕ) where
  abbrev replaced : List ℕ
  replaced = replace_all (n ∷ ns) replacement 0 target

  -- What the copy leaves, where the workspace has room for the new text.
  str_replace-copy_back :
      0 < length target
      → length target + 16 < max_len
      → length replaced + length target + 1 < max_len
      → str_replace_inplace target (n ∷ ns) replacement max_len
        ≡ copy_back target (replaced, occurs (n ∷ ns) target)
  unfolding str_replace_inplace
  str_replace-copy_back some_text free fits =
      let loop =
        replace_loop-replace_all n ns replacement (max_len - length target - 1)
          (suc (length target)) target [] false (omega arith) (omega arith) in
      rw (loop, str_replace_inplace) (ground arith)

  -- With room in the array behind the text for the new one, the new text stands in the array if it
  -- is not longer than the old one: every occurrence of the needle is replaced, in one pass from
  -- the left.
  pub str_replace_inplace-replace_all :
      0 < length target
      → length target + 16 < max_len
      → length replaced + length target + 1 < max_len
      → length replaced ≤ length target
      → str_replace_inplace target (n ∷ ns) replacement max_len ≡ ok replaced
  unfolding copy_back
  str_replace_inplace-replace_all some_text free fits short =
      str_replace-copy_back some_text free fits ∙ copied (Bool-cases (occurs (n ∷ ns) target))
    where
      copied :
          (occurs (n ∷ ns) target ≡ true) ⊎ (occurs (n ∷ ns) target ≡ false)
          → copy_back target (replaced, occurs (n ∷ ns) target) ≡ ok replaced
      copied (inl found) = ground (arith, found)
      copied (inr absent) =
          rw
            (
              absent,
              replace_all-none (n ∷ ns) replacement target (occurs-none (n ∷ ns) target absent),
            )
            refl

  -- A new text that is longer than the old one is copied over itself: the regions of the `memcpy`
  -- overlap.
  pub str_replace_inplace-overlap :
      occurs (n ∷ ns) target ≡ true
      → 0 < length target
      → length target + 16 < max_len
      → length replaced + length target + 1 < max_len
      → length target < length replaced
      → str_replace_inplace target (n ∷ ns) replacement max_len ≡ fault
  unfolding copy_back
  str_replace_inplace-overlap found some_text free fits long =
      str_replace-copy_back some_text free fits ∙ ground (arith, found)
