-- ===== src/Identity/Credential.antt =====
-- The text of an API key: `generateKey` and `splitKey` (internal/identity/credential.go), over bytes. The
-- random bytes and the encoded secret are arguments; hashing is the argon2 library's and an argument of
-- the services.
use forecastiq.Text.{is_empty, has_prefix}
use forecastiq.Prelude.{
  ℕ, ◌+◌, ◌-◌, ◌/◌, ◌%◌, ◌≡◌, refl, false, not, ◌||◌, Option, none, some, List, [], ◌∷◌, ◌++◌, ltb,
  ◌==◌, if◌then◌else◌, arith, All, All-append,
}

-- "fiq_"
abbrev pub key_prefix_label : List ℕ
key_prefix_label = b'f' ∷ b'i' ∷ b'q' ∷ b'_' ∷ []

unfoldable pub hex_digit : ℕ → ℕ
hex_digit n = if ltb n 10 then b'0' + n else b'a' + (n - 10)

-- `hex.EncodeToString`
unfoldable pub hex : List ℕ → List ℕ
hex [] = []
hex (b ∷ bs) = hex_digit (b / 16) ∷ hex_digit (b % 16) ∷ hex bs

unfoldable pub key_prefix : List ℕ → List ℕ
key_prefix random = key_prefix_label ++ hex random

-- The plaintext, "<prefix>.<secret>".
unfoldable pub plaintext : List ℕ → List ℕ → List ℕ
plaintext random secret = key_prefix random ++ (b'.' ∷ secret)

-- The bytes before the first dot, if there is one (`strings.IndexByte` and the slice).
unfoldable pub before_dot : List ℕ → Option (List ℕ)
before_dot [] = none
before_dot (c ∷ cs) =
    let rest = before_dot cs in
    if c == b'.' then some [] else elim rest [ none ↦ none | some p ↦ some (c ∷ p) ]

-- A dot at the start (`i <= 0`) gives an empty prefix, which is refused.
unfoldable pub split_key : List ℕ → Option (List ℕ)
split_key s = elim (before_dot s) [
  | none ↦ none
  | some p ↦ if is_empty p || not (has_prefix key_prefix_label s) then none else some p
]

before_dot-append :
    (p rest : List ℕ) → All (λ c. (c == b'.') ≡ false) p → before_dot (p ++ (b'.' ∷ rest)) ≡ some p
unfolding before_dot
before_dot-append [] rest h = refl
before_dot-append (c ∷ cs) rest (h, hs) = ground (arith, h, before_dot-append cs rest hs)

hex_digit-not_dot : (n : ℕ) → (hex_digit n == b'.') ≡ false
unfolding hex_digit
hex_digit-not_dot n = ground arith

hex-not_dot : (bs : List ℕ) → All (λ c. (c == b'.') ≡ false) (hex bs)
unfolding hex
hex-not_dot [] = tt
hex-not_dot (b ∷ bs) = (hex_digit-not_dot (b / 16), (hex_digit-not_dot (b % 16), hex-not_dot bs))

-- Splitting the text of a generated key gives its prefix back, whatever the random bytes and the secret are.
pub split_key-plaintext :
    (random secret : List ℕ) → split_key (plaintext random secret) ≡ some (key_prefix random)
unfolding split_key plaintext key_prefix has_prefix
split_key-plaintext random secret = ground (
  arith,
  before_dot-append (key_prefix_label ++ hex random) secret (
      All-append _ key_prefix_label (hex random) (refl, (refl, (refl, (refl, tt))))
        (hex-not_dot random)),
)
