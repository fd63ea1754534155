-- ===== src/Logger/Prepend.antt =====
-- logger/defines.h: the texts "[class::function] [LEVEL]" that the log macros make, as arrays of bytes
-- that end with 0. A `std::string_view` is the list of its bytes.
pub mod Spelled
use order_forge_matching_eng.Common.{
  ℕ, zero, suc, ◌+◌, Bool, ◌==◌, ◌&&◌, if◌then◌else◌, length, Option, none, some, ◌>>=◌, List, [],
  ◌∷◌,
}

abbrev pub Bytes : Type 0
Bytes = List ℕ

-- The array, and the index of the next byte.
abbrev pub Cursor : Type 0
Cursor = ℕ × (ℕ → ℕ)

-- `result[index++] = ch`
abbrev pub put : ℕ → Cursor → Cursor
put b (i, a) = (suc i, λ j. if j == i then b else a j)

-- `for (char ch: str) { result[index++] = ch; }`
unfoldable pub put_all : Bytes → Cursor → Cursor
put_all [] c = c
put_all (b ∷ bs) c = put_all bs (put b c)

unfoldable pub generate_str : Bytes → Bytes → Bytes → ℕ → ℕ
generate_str str str2 str3 =
    let class = put_all str (put 91 (0, λ _. 0)) in
    let function = put_all str2 (put 58 (put 58 class)) in
    let tag = put_all str3 (put 91 (put 32 (put 93 function))) in (put 93 tag).1

-- The static strings that there are: one for each instance of `get_str`, which its template arguments name.
pub record Instance : Type 0 where
  pub n1 : ℕ
  pub n2 : ℕ
  pub n3 : ℕ
  pub n : ℕ

abbrev pub same_instance : Instance → Instance → Bool
same_instance a b = (a.n1 == b.n1) && (a.n2 == b.n2) && (a.n3 == b.n3) && (a.n == b.n)

abbrev pub Statics : Type 0
Statics = List (Instance × (ℕ → ℕ))

unfoldable pub find_static : Instance → Statics → Option (ℕ → ℕ)
find_static k [] = none
find_static k ((i, a) ∷ statics) = if same_instance i k then some a else find_static k statics

abbrev pub instance_of : Bytes → Bytes → Bytes → ℕ → Instance
instance_of str str2 str3 n = record { n1 = length str; n2 = length str2; n3 = length str3; n = n }

-- `static const auto result = generate_str<N1, N2, N3>(str, str2, str3); return result.data();`
unfoldable pub get_str : Bytes → Bytes → Bytes → (n : ℕ) → Statics → Statics × (ℕ → ℕ)
get_str str str2 str3 n statics =
    let k = instance_of str str2 str3 n in
    elim (find_static k statics) [
      | some a ↦ (statics, a)
      | none ↦ ((k, generate_str str str2 str3) ∷ statics, generate_str str str2 str3)
    ]

-- What a `const char*` is as a text, `none` if no byte of the first `size` is 0.
unfoldable pub c_str : (size : ℕ) → (ℕ → ℕ) → (i : ℕ) → Option Bytes
c_str zero a i = none
c_str (suc size) a i =
    let rest = c_str size a (suc i) in if a i == 0 then some [] else (do bs ← rest; some (a i ∷ bs))
