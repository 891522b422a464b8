-- ===== src/Keywrap/Derivation.antt =====
-- The Concat KDF against its definition in NIST SP 800-56A: the digests of the counters 1, 2, ..., one
-- after the other, cut to the length asked for.
use chainbind_go.Prelude.{
  ℕ, zero, suc, ◌+◌, ◌*◌, ◌/◌, ◌%◌, ◌^◌, ◌≤◌, ◌<◌, ◌≡◌, refl, sym, ap, ◌∙◌, true, false, [], ◌∷◌,
  ◌++◌, List, length, take, length-append, ltb, arith,
}
use chainbind_go.Value.{Bytes}
use chainbind_go.Platform.{Platform}
use chainbind_go.Keywrap.{big_endian}
use chainbind_go.Keywrap.Wrapper.{kdf_rounds, concat_kdf}

-- SHA-256 makes 32 bytes.
abbrev pub DigestsOf32 : Platform → Type 0
DigestsOf32 pf = (b : Bytes) → length (pf.sha256 b) ≡ 32

-- `k` digests, from a counter on.
unfoldable pub digests : Platform → Bytes → Bytes → ℕ → ℕ → Bytes
digests pf z other_info zero counter = []
digests pf z other_info (suc k) counter =
    pf.sha256 (big_endian 4 counter ++ z ++ other_info)
    ++ digests pf z other_info k ((counter + 1) % 2 ^ 32)

length-take {ℓ} : {A : Type ℓ} (n : ℕ) (xs : List A) → n ≤ length xs → length (take n xs) ≡ n
length-take zero xs h = refl
length-take (suc n) [] h = absurd (omega arith)
length-take (suc n) (x ∷ xs) h = ap suc (length-take n xs (omega arith))

append_assoc {ℓ} : {A : Type ℓ} (xs ys zs : List A) → (xs ++ ys) ++ zs ≡ xs ++ (ys ++ zs)
append_assoc [] ys zs = refl
append_assoc (x ∷ xs) ys zs = ap (λ r. x ∷ r) (append_assoc xs ys zs)

append_nil {ℓ} : {A : Type ℓ} (xs : List A) → xs ++ [] ≡ xs
append_nil [] = refl
append_nil (x ∷ xs) = ap (λ r. x ∷ r) (append_nil xs)

length-digests :
    (pf : Platform) (z other_info : Bytes) (k counter : ℕ)
    → DigestsOf32 pf
    → length (digests pf z other_info k counter) ≡ 32 * k
unfolding digests
length-digests pf z other_info zero counter size = refl
length-digests pf z other_info (suc k) counter size =
    let h : Bytes = pf.sha256 (big_endian 4 counter ++ z ++ other_info) in
    let next = (counter + 1) % 2 ^ 32 in
    omega (
      arith,
      length-append h (digests pf z other_info k next),
      size (big_endian 4 counter ++ z ++ other_info),
      length-digests pf z other_info k next size,
    )

-- One round, where bytes are missing; none, where there are enough.
kdf_rounds-missing :
    (pf : Platform) (z other_info : Bytes) (len fuel counter : ℕ) (out : Bytes)
    → length out < len
    → kdf_rounds pf z other_info len (suc fuel) counter out
      ≡ kdf_rounds pf z other_info len fuel
          ((counter + 1) % 2 ^ 32)
          (out ++ pf.sha256 (big_endian 4 counter ++ z ++ other_info))
unfolding kdf_rounds
kdf_rounds-missing pf z other_info len fuel counter out h =
    let short : ltb (length out) len ≡ true = ground arith in rw short refl

kdf_rounds-enough :
    (pf : Platform) (z other_info : Bytes) (len fuel counter : ℕ) (out : Bytes)
    → len ≤ length out
    → kdf_rounds pf z other_info len fuel counter out ≡ out
unfolding kdf_rounds
kdf_rounds-enough pf z other_info len zero counter out h = refl
kdf_rounds-enough pf z other_info len (suc fuel) counter out h =
    let full : ltb (length out) len ≡ false = ground arith in rw full refl

kdf_rounds-digests :
    (pf : Platform) (z other_info : Bytes) (len k fuel counter : ℕ) (out : Bytes)
    → DigestsOf32 pf
    → len ≤ length out + 32 * k
    → length out + 32 * k < len + 32
    → k ≤ fuel
    → kdf_rounds pf z other_info len fuel counter out ≡ out ++ digests pf z other_info k counter
unfolding digests
kdf_rounds-digests pf z other_info len zero fuel counter out size enough least fits =
    kdf_rounds-enough pf z other_info len fuel counter out (omega arith) ∙ sym (append_nil out)
kdf_rounds-digests pf z other_info len (suc k) zero counter out size enough least fits =
    absurd (omega arith)
kdf_rounds-digests pf z other_info len (suc k) (suc fuel) counter out size enough least fits =
    let input = big_endian 4 counter ++ z ++ other_info in
    let next = (counter + 1) % 2 ^ 32 in
    let longer = length-append out (pf.sha256 input) in
    let digest = size input in
    kdf_rounds-missing pf z other_info len fuel counter out (omega arith)
    ∙ kdf_rounds-digests pf z other_info len k fuel next (out ++ pf.sha256 input) size
        (omega (arith, longer, digest)) (omega (arith, longer, digest)) (omega arith)
    ∙ append_assoc out (pf.sha256 input) (digests pf z other_info k next)

-- concatKDF is the Concat KDF: where a SHA-256 digest has 32 bytes and k is the least number of
-- digests that gives the bytes asked for, its result is the first k digests, for the counters from
-- 1 on, cut to those bytes; it has exactly so many, and the fuel of the loop is enough.
pub concat_kdf-digests :
    (pf : Platform) (z other_info : Bytes) (key_data_len_bits k : ℕ)
    → DigestsOf32 pf
    → key_data_len_bits / 8 ≤ 32 * k
    → 32 * k < key_data_len_bits / 8 + 32
    → (concat_kdf pf z other_info key_data_len_bits
        ≡ take (key_data_len_bits / 8) (digests pf z other_info k 1))
      × (length (concat_kdf pf z other_info key_data_len_bits) ≡ key_data_len_bits / 8)
unfolding concat_kdf
concat_kdf-digests pf z other_info bits k size enough least =
    let len = bits / 8 in
    let made =
      kdf_rounds-digests pf z other_info len k len 1 [] size (omega arith) (omega arith)
        (omega arith) in
    (
      ap (take len) made,
      ap (λ r. length (take len r)) made
          ∙ length-take len (digests pf z other_info k 1)
              (omega (arith, length-digests pf z other_info k 1 size)),
    )
