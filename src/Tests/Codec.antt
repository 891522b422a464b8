-- ===== src/Tests/Codec.antt =====
-- A reversible text of bytes: every byte in unary, `b` at its end.
use Prim.Native.Char.{Char, code}
use text.Mathlib.TextBridge.{of_list}
use chainbind_go.Prelude.{
  ℕ, suc, zero, String, ◌≡◌, refl, sym, ap, ◌∙◌, Option, none, some, List, [], ◌∷◌, ◌+◌, eqb, arith,
  if◌then◌else◌,
}
use chainbind_go.Value.{Bytes}

unfoldable pub unary : ℕ → List Char → List Char
unary zero rest = "b" ∷ rest
unary (suc n) rest = "a" ∷ unary n rest

unfoldable pub encode : Bytes → List Char
encode [] = []
encode (n ∷ b) = unary n (encode b)

unfoldable pub cons : ℕ → Option Bytes → Option Bytes
cons n none = none
cons n (some b) = some (n ∷ b)

unfoldable pub decode : ℕ → List Char → Option Bytes
decode n [] = if eqb n 0 then some [] else none
decode n (c ∷ cs) =
    let ended = cons n (decode 0 cs) in
    let going = decode (n + 1) cs in if eqb (code c) 98 then ended else going

decode-unary : (m n : ℕ) (rest : List Char) → decode m (unary n rest) ≡ cons (m + n) (decode 0 rest)
unfolding decode unary
decode-unary m zero rest = let e : m + 0 ≡ m = omega arith in rw e refl
decode-unary m (suc n) rest =
    let e : m + 1 + n ≡ m + suc n = omega arith in decode-unary (m + 1) n rest ∙ rw e refl

decode-encode : (b : Bytes) → decode 0 (encode b) ≡ some b
unfolding encode
decode-encode [] = unfold decode in refl
decode-encode (n ∷ b) =
    let e : 0 + n ≡ n = omega arith in
    decode-unary 0 n (encode b) ∙ rw (decode-encode b, e) (unfold cons in refl)

-- The characters of a text.
unfoldable pub chars : String → List Char
chars String.[] = []
chars (String.◌∷◌ c s) = c ∷ chars s

chars-of_list : (l : List Char) → chars (of_list l) ≡ l
unfolding chars
chars-of_list [] = refl
chars-of_list (c ∷ l) = ap (λ m. c ∷ m) (chars-of_list l)

abbrev pub text_of : Bytes → String
text_of b = of_list (encode b)

abbrev pub bytes_of : String → Option Bytes
bytes_of s = decode 0 (chars s)

pub bytes_of-text_of : (b : Bytes) → bytes_of (text_of b) ≡ some b
bytes_of-text_of b = rw (chars-of_list (encode b)) (decode-encode b)

pub text_of-injective : (a b : Bytes) → text_of a ≡ text_of b → a ≡ b
text_of-injective a b e =
    let h = sym (bytes_of-text_of a) ∙ ap bytes_of e ∙ bytes_of-text_of b in cc
