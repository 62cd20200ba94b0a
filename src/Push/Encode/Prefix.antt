-- ===== src/Push/Encode/Prefix.antt =====
-- What the encoding loops write: the codes of a prefix of the text.
use esp32c3_sms_gateway.Prelude.{
  ℕ, suc, ◌+◌, ◌-◌, ◌*◌, ◌≤◌, ◌<◌, ◌≡◌, ◌⊎◌, inl, inr, refl, sym, ap, ◌∙◌, arith, true, false,
  Bool-cases, List, [], ◌∷◌, ◌++◌, length, length-append, length-take, take, ltb, if◌then◌else◌,
}
use esp32c3_sms_gateway.Push.Encode.{encode_loop}
use native.Mathlib.Nat.{mul-suc, mul-le-mul_left}
use mathlib.Core.List.{append-nil, append_assoc}

-- The codes of all characters.
unfoldable pub codes : (ℕ → List ℕ) → List ℕ → List ℕ
codes code [] = []
codes code (c ∷ s) = code c ++ codes code s

module _ (code : ℕ → List ℕ) (limit : ℕ) where
  -- The loop writes the codes of the first `count` characters; it stops short of the end only
  -- where the room ends.
  pub record IsWritten (s out written : List ℕ) : Type 0 where
    pub count : ℕ
    pub within : count ≤ length s
    pub text : written ≡ out ++ codes code (take count s)
    pub stopped : (count ≡ length s) ⊎ (limit ≤ length written)

  pub encode_loop-IsWritten : (s out : List ℕ) → IsWritten s out (encode_loop code limit s out)
  unfolding encode_loop codes
  encode_loop-IsWritten [] out = record {
    count = 0;
    within = omega arith;
    text = sym (append-nil out);
    stopped = inl refl;
  }
  encode_loop-IsWritten (c ∷ s) out =
      go (encode_loop-IsWritten s (out ++ code c)) (Bool-cases (ltb (length out) limit))
    where
      go :
          IsWritten s (out ++ code c) (encode_loop code limit s (out ++ code c))
          → (ltb (length out) limit ≡ true) ⊎ (ltb (length out) limit ≡ false)
          → IsWritten
              (c ∷ s)
              out
              (if ltb (length out) limit then encode_loop code limit s (out ++ code c) else out)
      go later (inl more) = rw more (record {
        count = suc later.count;
        within = omega (arith, later.within);
        text = later.text ∙ append_assoc out (code c) (codes code (take later.count s));
        stopped = elim later.stopped [ inl all ↦ inl (ap suc all) | inr full ↦ inr full ];
      })
      go later (inr full) = rw full (record {
        count = 0;
        within = omega arith;
        text = sym (append-nil out);
        stopped = inr (ground arith);
      })

  -- With codes of at most `widest` characters the loop writes less than `limit + widest`.
  pub length-encode_loop :
      (widest : ℕ) (s out : List ℕ)
      → ((c : ℕ) → length (code c) ≤ widest)
      → length out < limit + widest
      → length (encode_loop code limit s out) < limit + widest
  unfolding encode_loop
  length-encode_loop widest [] out short below = below
  length-encode_loop widest (c ∷ s) out short below = ground (
    arith,
    length-encode_loop widest s (out ++ code c) short,
    length-append out (code c),
    short c,
  )

pub length-codes :
    (code : ℕ → List ℕ) (widest : ℕ) (s : List ℕ)
    → ((c : ℕ) → length (code c) ≤ widest)
    → length (codes code s) ≤ widest * length s
unfolding codes
length-codes code widest [] short = omega arith
length-codes code widest (c ∷ s) short =
    let step : widest * suc (length s) ≡ widest * length s + widest = mul-suc widest (length s) in
    rw step (
      omega
        (arith, short c, length-codes code widest s short, length-append (code c) (codes code s)))

-- An array with room for the widest code of every character takes the whole text.
pub IsWritten-whole :
    (code : ℕ → List ℕ) (widest dest_len : ℕ) (s written : List ℕ)
    → ((c : ℕ) → length (code c) ≤ widest)
    → widest * length s < dest_len
    → (w : IsWritten code (dest_len - widest) s [] written) → w.count ≡ length s
IsWritten-whole code widest dest_len s written short enough w = elim w.stopped [
  | inl all ↦ all
  | inr full ↦
      let kept : length (take w.count s) ≡ w.count =
        omega (arith, length-take w.count s, w.within) in
      let same_product = ap (λ t. widest * t) kept in
      let wide = length-codes code widest (take w.count s) short in
      let same = ap length w.text in
      let step = mul-suc widest w.count in
      elim (Bool-cases (ltb w.count (length s))) [
        | inr reached ↦
            let no_less : length s ≤ w.count = ground arith in omega (arith, w.within, no_less)
        | inl less ↦
            let below : suc w.count ≤ length s = ground arith in
            absurd
              (omega (arith, mul-le-mul_left widest below, step, full, same, wide, same_product))
      ]
]
