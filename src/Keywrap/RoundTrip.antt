-- ===== src/Keywrap/RoundTrip.antt =====
-- aesKeyUnwrap undoes aesKeyWrap.
use chainbind_go.Prelude.{
  ℕ, zero, suc, ◌+◌, ◌*◌, ◌/◌, ◌%◌, ◌-◌, ◌≡◌, ◌≢◌, ◌<◌, ltb, refl, ap, ◌∙◌, true, false, List, [],
  ◌∷◌, ◌++◌, All, arith, length, take, length-append, take-append-drop, eqb,
}
use chainbind_go.Errors.{ok}
use chainbind_go.Value.{Bytes, IsBlock}
use chainbind_go.Platform.{Platform}
use chainbind_go.Keywrap.{
  Curve, xor_counter, aes_key_wrap_iv, blocks, join, wrap_pass, wrap_rounds, unwrap_pass,
  unwrap_rounds, equal_bytes, aes_key_wrap, aes_key_unwrap,
}
use chainbind_go.Keywrap.Xor.{xor_counter-cancel}
use chainbind_go.Keywrap.Blocks.{
  take-append, drop-append, IsBlock-append, IsBlock-take, IsBlock-drop, IsBlock-xor_counter,
  blocks-IsBlock, join-blocks, blocks-join, length-join, length-blocks,
}

-- A block cipher: on blocks of 16 bytes, decryption undoes encryption.
pub record IsCipher (encrypt decrypt : Bytes → Bytes) : Type 0 where
  pub encrypt-IsBlock : (b : Bytes) → IsBlock 16 b → IsBlock 16 (encrypt b)
  pub decrypt-encrypt : (b : Bytes) → IsBlock 16 b → decrypt (encrypt b) ≡ b

-- An integrity value and the blocks behind it.
abbrev IsState : ℕ → Bytes × List Bytes → Type 0
IsState n (a, r) = IsBlock 8 a × (length r ≡ n) × All (IsBlock 8) r

module _ {encrypt decrypt : Bytes → Bytes} (cipher : IsCipher encrypt decrypt) where
  wrap_pass-IsState :
      (n t : ℕ) (a : Bytes) (r : List Bytes)
      → IsState n (a, r)
      → IsState n (wrap_pass encrypt t a r)
  unfolding wrap_pass
  wrap_pass-IsState n t a [] s = s
  wrap_pass-IsState zero t a (x ∷ r) (ha, e, _) = absurd (omega arith)
  wrap_pass-IsState (suc n) t a (x ∷ r) (ha, e, (hx, hr)) =
      let b = encrypt (a ++ x) in
      let hb = cipher.encrypt-IsBlock (a ++ x) (IsBlock-append a x ha hx) in
      let (ha', e', hr') =
        wrap_pass-IsState n (t + 1) (xor_counter (take 8 b) t) r
          (IsBlock-xor_counter (take 8 b) t (IsBlock-take 8 8 b hb), omega arith, hr) in
      (ha', omega arith, (IsBlock-drop 8 8 b hb, hr'))

  unwrap-wrap_pass :
      (n t : ℕ) (a : Bytes) (r : List Bytes)
      → IsState n (a, r)
      → let (a', r') = wrap_pass encrypt t a r in unwrap_pass decrypt t a' r' ≡ (a, r)
  unfolding wrap_pass unwrap_pass
  unwrap-wrap_pass n t a [] s = refl
  unwrap-wrap_pass zero t a (x ∷ r) (ha, e, _) = absurd (omega arith)
  unwrap-wrap_pass (suc n) t a (x ∷ r) (ha, e, (hx, hr)) =
      let b = encrypt (a ++ x) in
      let hb = cipher.encrypt-IsBlock (a ++ x) (IsBlock-append a x ha hx) in
      let h8 = IsBlock-take 8 8 b hb in
      let ih =
        unwrap-wrap_pass n (t + 1) (xor_counter (take 8 b) t) r
          (IsBlock-xor_counter (take 8 b) t h8, omega arith, hr) in
      rw
        (
          ih,
          xor_counter-cancel (take 8 b) t h8.1,
          take-append-drop 8 b,
          cipher.decrypt-encrypt (a ++ x) (IsBlock-append a x ha hx),
          take-append 8 a x ha.0,
          drop-append 8 a x ha.0,
        )
        refl

  wrap_rounds-IsState :
      (n k j : ℕ) (a : Bytes) (r : List Bytes)
      → IsState n (a, r)
      → IsState n (wrap_rounds encrypt n k j a r)
  unfolding wrap_rounds
  wrap_rounds-IsState n zero j a r s = s
  wrap_rounds-IsState n (suc k) j a r s =
      let (a', r') = wrap_pass encrypt (n * j + 1) a r in
      wrap_rounds-IsState n k (j + 1) a' r' (wrap_pass-IsState n (n * j + 1) a r s)

  unwrap-wrap_rounds :
      (n k j : ℕ) (a : Bytes) (r : List Bytes)
      → IsState n (a, r)
      → let (a', r') = wrap_rounds encrypt n k j a r in unwrap_rounds decrypt n k j a' r' ≡ (a, r)
  unfolding wrap_rounds unwrap_rounds
  unwrap-wrap_rounds n zero j a r s = refl
  unwrap-wrap_rounds n (suc k) j a r s =
      let t = n * j + 1 in
      let (a', r') = wrap_pass encrypt t a r in
      rw (unwrap-wrap_rounds n k (j + 1) a' r' (wrap_pass-IsState n t a r s))
        (unwrap-wrap_pass n t a r s)

iv-IsBlock : IsBlock 8 aes_key_wrap_iv
iv-IsBlock =
    let small : 166 < 256 = omega arith in
    (refl, (small, (small, (small, (small, (small, (small, (small, (small, tt)))))))))

equal_bytes_refl : (a : Bytes) → equal_bytes a a ≡ true
unfolding equal_bytes
equal_bytes_refl [] = refl
equal_bytes_refl (x ∷ a) = ground (arith, equal_bytes_refl a)

module _ (pf : Platform) (curve : Curve) (kek : Bytes)
    (cipher : IsCipher (curve.aes_encrypt kek) (curve.aes_decrypt kek))
    (accepts : pf.aes_accepts kek ≡ true) where
  -- What aesKeyUnwrap makes of a well formed wrapping.
  unwrap-IsState :
      (n : ℕ) (a : Bytes) (r s : List Bytes)
      → n ≢ 0
      → IsState n (a, r)
      → unwrap_rounds (curve.aes_decrypt kek) n 6 0 a r ≡ (aes_key_wrap_iv, s)
      → aes_key_unwrap pf curve kek (a ++ join r) ≡ ok (join s)
  unfolding aes_key_unwrap
  unwrap-IsState n a r s some_blocks (ha, e, hr) back =
      let size : length (a ++ join r) ≡ 8 + 8 * n =
        omega (arith, length-append a (join r), length-join r hr, ha.0) in
      let long : ltb (length (a ++ join r)) 16 ≡ false = ground arith in
      let whole : eqb (length (a ++ join r) % 8) 0 ≡ true = ground arith in
      let count : length (a ++ join r) / 8 - 1 ≡ n = omega arith in
      rw
        (
          long,
          whole,
          accepts,
          count,
          take-append 8 a (join r) ha.0,
          drop-append 8 a (join r) ha.0,
          blocks-join n r e hr,
          back,
          equal_bytes_refl aes_key_wrap_iv,
        )
        refl

  -- A key of n > 0 blocks of 8 bytes is wrapped, to one block more, and unwrapping gives the key
  -- back, where AES accepts the key-encryption key and its decryption undoes its encryption.
  pub aes_key_unwrap-aes_key_wrap :
      (n : ℕ) (d : Bytes)
      → n ≢ 0
      → IsBlock (8 * n) d
      → (w : Bytes) × (aes_key_wrap pf curve kek d ≡ ok w)
        × (length w ≡ 8 * n + 8)
        × (aes_key_unwrap pf curve kek w ≡ ok d)
  unfolding aes_key_wrap
  aes_key_unwrap-aes_key_wrap n d some_blocks (size, hd) =
      let (a, r) = wrap_rounds (curve.aes_encrypt kek) n 6 0 aes_key_wrap_iv (blocks n d) in
      let start : IsState n (aes_key_wrap_iv, blocks n d) =
        (iv-IsBlock, length-blocks n d, blocks-IsBlock n d (size, hd)) in
      let done = wrap_rounds-IsState cipher n 6 0 aes_key_wrap_iv (blocks n d) start in
      let back = unwrap-wrap_rounds cipher n 6 0 aes_key_wrap_iv (blocks n d) start in
      let some_bytes : eqb (length d) 0 ≡ false = ground arith in
      let whole : eqb (length d % 8) 0 ≡ true = ground arith in
      let count : length d / 8 ≡ n = omega arith in
      (
        a ++ join r,
        rw (some_bytes, whole, accepts, count) refl,
        omega (arith, length-append a (join r), length-join r done.2, done.0.0, done.1),
        unwrap-IsState n a r (blocks n d) some_blocks done back ∙ ap ok (join-blocks n d size),
      )
