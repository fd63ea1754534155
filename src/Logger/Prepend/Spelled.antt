-- ===== src/Logger/Prepend/Spelled.antt =====
-- What the static strings spell.
use order_forge_matching_eng.Common.{
  ℕ, suc, ◌+◌, ◌<◌, ◌≤◌, ◌≡◌, refl, ◌∙◌, ap, true, false, ◌==◌, length, length-append, none, some,
  [], ◌∷◌, ◌++◌, All, All-append, arith,
}
use order_forge_matching_eng.Logger.Prepend.{
  Bytes, Cursor, put, put_all, generate_str, Instance, same_instance, Statics, find_static,
  instance_of, get_str, c_str,
}

put_all-append : (xs ys : Bytes) (c : Cursor) → put_all ys (put_all xs c) ≡ put_all (xs ++ ys) c
unfolding put_all
put_all-append [] ys c = refl
put_all-append (x ∷ xs) ys c = put_all-append xs ys (put x c)

-- The text of the class, the function and the tag.
abbrev pub prepend : Bytes → Bytes → Bytes → Bytes
prepend str str2 str3 = (91 ∷ str) ++ ((58 ∷ 58 ∷ str2) ++ ((93 ∷ 32 ∷ 91 ∷ str3) ++ (93 ∷ [])))

generate_str-put_all :
    (str str2 str3 : Bytes)
    → generate_str str str2 str3 ≡ (put_all (prepend str str2 str3) (0, λ _. 0)).1
unfolding generate_str put_all
generate_str-put_all str str2 str3 =
    let c₀ : Cursor = put 91 (0, λ _. 0) in
    let c₁ : Cursor = put 58 (put 58 (put_all str c₀)) in
    let c₂ : Cursor = put 91 (put 32 (put 93 (put_all str2 c₁))) in
    ap (λ (c : Cursor). c.1)
      (put_all-append str3 (93 ∷ []) c₂
        ∙ (put_all-append str2 (93 ∷ 32 ∷ 91 ∷ (str3 ++ 93 ∷ [])) c₁
            ∙ put_all-append str (58 ∷ 58 ∷ (str2 ++ 93 ∷ 32 ∷ 91 ∷ (str3 ++ 93 ∷ []))) c₀))

earlier : (bs : Bytes) (c : Cursor) (j : ℕ) → j < c.0 → (put_all bs c).1 j ≡ c.1 j
unfolding put_all
earlier [] c j h = refl
earlier (b ∷ bs) (i, a) j h =
    let other : (j == i) ≡ false = ground (arith, h) in
    earlier bs (put b (i, a)) j (omega (arith, h)) ∙ rw other refl

c_str-suc :
    (size : ℕ) (a : ℕ → ℕ) (i b : ℕ) (bs : Bytes)
    → a i ≡ b
    → (b == 0) ≡ false
    → c_str size a (suc i) ≡ some bs
    → c_str (suc size) a i ≡ some (b ∷ bs)
unfolding c_str
c_str-suc size a i b bs here full rest = rw here (rw full (rw rest refl))

spelled :
    (bs : Bytes) (i : ℕ) (a : ℕ → ℕ)
    → All (λ b. (b == 0) ≡ false) bs
    → ((j : ℕ) → i ≤ j → a j ≡ 0)
    → c_str (suc (length bs)) (put_all bs (i, a)).1 i ≡ some bs
unfolding c_str put_all
spelled [] i a h clear = rw (clear i (omega arith)) refl
spelled (b ∷ bs) i a h clear =
    let own : (i == i) ≡ true = ground arith in
    let here : (put_all bs (put b (i, a))).1 i ≡ b =
      earlier bs (put b (i, a)) i (omega arith) ∙ rw own refl in
    let rest : c_str (suc (length bs)) (put_all bs (put b (i, a))).1 (suc i) ≡ some bs =
      spelled bs (suc i) (put b (i, a)).1 h.1
        (λ j after. ground (arith, clear j (omega (arith, after)), after)) in
    c_str-suc (suc (length bs)) (put_all bs (put b (i, a))).1 i b bs here h.0 rest

-- No byte of a name is 0.
abbrev pub NoNul : Bytes → Type 0
NoNul = All (λ b. (b == 0) ≡ false)

length-prepend :
    (str str2 str3 : Bytes)
    → length (prepend str str2 str3) ≡ length str + length str2 + length str3 + 7
length-prepend str str2 str3 = omega (
  arith,
  length-append str ((58 ∷ 58 ∷ str2) ++ ((93 ∷ 32 ∷ 91 ∷ str3) ++ (93 ∷ []))),
  length-append str2 ((93 ∷ 32 ∷ 91 ∷ str3) ++ (93 ∷ [])),
  length-append str3 (93 ∷ []),
)

prepend-NoNul :
    (str str2 str3 : Bytes) → NoNul str → NoNul str2 → NoNul str3 → NoNul (prepend str str2 str3)
prepend-NoNul str str2 str3 h k l = (
  ground arith,
  All-append _ str _ h (
    ground arith,
    (
      ground arith,
      All-append _ str2 _ k
          (ground arith, (ground arith, (ground arith, All-append _ str3 _ l (ground arith, tt)))),
    ),
  ),
)

generate_str-prepend :
    (str str2 str3 : Bytes)
    → NoNul str
    → NoNul str2
    → NoNul str3
    → c_str (length str + length str2 + length str3 + 8) (generate_str str str2 str3) 0
      ≡ some (prepend str str2 str3)
generate_str-prepend str str2 str3 h k l =
    let bs = prepend str str2 str3 in
    let size : length str + length str2 + length str3 + 8 ≡ suc (length bs) =
      omega (arith, length-prepend str str2 str3) in
    rw size (
      rw (generate_str-put_all str str2 str3)
        (spelled bs 0 (λ _. 0) (prepend-NoNul str str2 str3 h k l) (λ j after. refl)))

get_str-made :
    (str str2 str3 : Bytes) (n : ℕ) (statics : Statics)
    → find_static (instance_of str str2 str3 n) statics ≡ none
    → get_str str str2 str3 n statics ≡ (
      (instance_of str str2 str3 n, generate_str str str2 str3) ∷ statics,
      generate_str str str2 str3,
    )
unfolding get_str generate_str
get_str-made str str2 str3 n statics new = rw (new, get_str) refl

get_str-shared :
    (str str2 str3 : Bytes) (n : ℕ) (statics : Statics) (a : ℕ → ℕ)
    → find_static (instance_of str str2 str3 n) statics ≡ some a
    → get_str str str2 str3 n statics ≡ (statics, a)
unfolding get_str
get_str-shared str str2 str3 n statics a there = rw (there, get_str) refl

found_first :
    (i k : Instance) (a : ℕ → ℕ) (statics : Statics)
    → same_instance i k ≡ true
    → find_static k ((i, a) ∷ statics) ≡ some a
unfolding find_static
found_first i k a statics same = rw same refl

-- The first names that a macro logs under are spelled as "[class::function] [TAG]", inside the array
-- and with its end at the last byte. But whoever logs later by the same macro, under names of the same
-- three lengths, logs under these first names.
pub get_str-prepend :
    (str str2 str3 other other2 other3 : Bytes) (n : ℕ) (statics : Statics)
    → NoNul str
    → NoNul str2
    → NoNul str3
    → find_static (instance_of str str2 str3 n) statics ≡ none
    → length other ≡ length str
    → length other2 ≡ length str2
    → length other3 ≡ length str3
    → let (statics', first) = get_str str str2 str3 n statics in
      let (_, later) = get_str other other2 other3 n statics' in
      let size = length str + length str2 + length str3 + 8 in
      (c_str size first 0 ≡ some (prepend str str2 str3))
      × (c_str size later 0 ≡ some (prepend str str2 str3))
get_str-prepend str str2 str3 other other2 other3 n statics h k l new e f g =
    let size = length str + length str2 + length str3 + 8 in
    let spelled = generate_str-prepend str str2 str3 h k l in
    let first = get_str-made str str2 str3 n statics new in
    let text = generate_str str str2 str3 in
    let key = instance_of str str2 str3 n in
    let again = get_str-shared other other2 other3 n ((key, text) ∷ statics) text (
      found_first key (instance_of other other2 other3 n) text statics (ground (arith, e, f, g))) in
    (
      ap (λ (r : Statics × (ℕ → ℕ)). c_str size r.1 0) first ∙ spelled,
      ap (λ (r : Statics × (ℕ → ℕ)). c_str size (get_str other other2 other3 n r.0).1 0) first
          ∙ (ap (λ (r : Statics × (ℕ → ℕ)). c_str size r.1 0) again ∙ spelled),
    )
