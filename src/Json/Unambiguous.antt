-- ===== src/Json/Unambiguous.antt =====
-- A value is known from the bytes that `json.dumps` writes for it.
use ai_account_payable_invoi.Prelude.{
  ℕ, ◌≡◌, ◌≢◌, refl, sym, ap, ◌∙◌, ◌↔◌, Option, some, [], ◌∷◌, All, arith,
}
use ai_account_payable_invoi.Text.{Text}
use ai_account_payable_invoi.Json.{
  Json, null, boolean, number, string, array, object, Items, nil, cons, Members, end, member,
}
use ai_account_payable_invoi.Json.Dumps.{
  Bytes, put_char, short_escape, put_chars, put, put_items, put_more, put_members, put_others,
  dumps,
}
use ai_account_payable_invoi.Json.Characters.{IsScalar, read_char, read_char-put_char}

tail_eq : {a b : ℕ} {xs ys : Bytes} → a ∷ xs ≡ b ∷ ys → xs ≡ ys
tail_eq h = cc

head_eq : {a b : ℕ} {xs ys : Bytes} → a ∷ xs ≡ b ∷ ys → a ≡ b
head_eq h = cc

-- A character never begins with the quote that ends a text.
put_char-ne-quote : (c : ℕ) (r s : Bytes) → IsScalar c → put_char c r ≢ 0x22 ∷ s
unfolding read_char put_char short_escape
put_char-ne-quote c r s h e =
    let read : some (c, r) ≡ read_char (0x22 ∷ s) =
      sym (read_char-put_char c r h) ∙ ap read_char e in
    let is_quote : c ≡ 0x22 = cc in
    let escaped : put_char 0x22 r ≡ 0x22 ∷ s = rw is_quote at e in
    absurd (omega (arith, head_eq escaped))

same_pair :
    {c d : ℕ} {r s : Bytes}
    → ◌≡◌ {A = Option (ℕ × Bytes)} (some (c, r)) (some (d, s))
    → (c ≡ d) × (r ≡ s)
same_pair h = (cc, cc)

put_char-eq :
    (c d : ℕ) (r s : Bytes)
    → IsScalar c
    → IsScalar d
    → put_char c r ≡ put_char d s
    → (c ≡ d) × (r ≡ s)
put_char-eq c d r s h k e =
    same_pair (sym (read_char-put_char c r h) ∙ ap read_char e ∙ read_char-put_char d s k)

put_chars-eq :
    (t u : Text) (r s : Bytes)
    → All IsScalar t
    → All IsScalar u
    → put_chars t r ≡ put_chars u s
    → (t ≡ u) × (r ≡ s)
unfolding put_chars
put_chars-eq [] [] r s h k e = (refl, tail_eq e)
put_chars-eq [] (d ∷ u) r s h k e = absurd (put_char-ne-quote d _ r k.0 (sym e))
put_chars-eq (c ∷ t) [] r s h k e = absurd (put_char-ne-quote c _ s h.0 e)
put_chars-eq (c ∷ t) (d ∷ u) r s h k e =
    let (same, rest) = put_char-eq c d (put_chars t r) (put_chars u s) h.0 k.0 e in
    let (texts, after) = put_chars-eq t u r s h.1 k.1 rest in (cc, after)

-- Texts of Unicode characters, lists and objects of such, and null.
unfoldable mutual
  pub IsPlain : Json → Type 0
  IsPlain null = Unit
  IsPlain (boolean b) = ⊥
  IsPlain (number t) = ⊥
  IsPlain (string t) = All IsScalar t
  IsPlain (array xs) = ItemsPlain xs
  IsPlain (object ms) = MembersPlain ms

  pub ItemsPlain : Items → Type 0
  ItemsPlain nil = Unit
  ItemsPlain (cons x xs) = IsPlain x × ItemsPlain xs

  pub MembersPlain : Members → Type 0
  MembersPlain end = Unit
  MembersPlain (member k j ms) = All IsScalar k × IsPlain j × MembersPlain ms

put-ne-bracket : (x : Json) (r s : Bytes) → IsPlain x → put x r ≢ 0x5d ∷ s
unfolding put IsPlain
put-ne-bracket null r s h e = absurd (omega (arith, head_eq e))
put-ne-bracket (boolean b) r s h e = absurd h
put-ne-bracket (number t) r s h e = absurd h
put-ne-bracket (string t) r s h e = absurd (omega (arith, head_eq e))
put-ne-bracket (array xs) r s h e = absurd (omega (arith, head_eq e))
put-ne-bracket (object ms) r s h e = absurd (omega (arith, head_eq e))

mutual
  unfolding put IsPlain

  put-eq :
      (x y : Json) (r s : Bytes) → IsPlain x → IsPlain y → put x r ≡ put y s → (x ≡ y) × (r ≡ s)
  put-eq null null r s h k e = (refl, tail_eq (tail_eq (tail_eq (tail_eq e))))
  put-eq (string t) (string u) r s h k e =
      let (same, after) = put_chars-eq t u r s h k (tail_eq e) in (ap string same, after)
  put-eq (array xs) (array ys) r s h k e =
      let (same, after) = put_items-eq xs ys r s h k (tail_eq e) in (ap array same, after)
  put-eq (object ms) (object ns) r s h k e =
      let (same, after) = put_members-eq ms ns r s h k (tail_eq e) in (ap object same, after)
  put-eq (boolean b) y r s h k e = absurd h
  put-eq (number t) y r s h k e = absurd h
  put-eq x (boolean b) r s h k e = absurd k
  put-eq x (number t) r s h k e = absurd k
  put-eq x y r s h k e = absurd (omega (arith, head_eq e))

  put_items-eq :
      (xs ys : Items) (r s : Bytes)
      → ItemsPlain xs
      → ItemsPlain ys
      → put_items xs r ≡ put_items ys s
      → (xs ≡ ys) × (r ≡ s)
  put_items-eq nil nil r s h k e = (refl, tail_eq e)
  put_items-eq nil (cons y ys) r s h k e = absurd (put-ne-bracket y _ r k.0 (sym e))
  put_items-eq (cons x xs) nil r s h k e = absurd (put-ne-bracket x _ s h.0 e)
  put_items-eq (cons x xs) (cons y ys) r s h k e =
      let (first, rest) = put-eq x y _ _ h.0 k.0 e in
      let (others, after) = put_more-eq xs ys r s h.1 k.1 rest in (cc, after)

  put_more-eq :
      (xs ys : Items) (r s : Bytes)
      → ItemsPlain xs
      → ItemsPlain ys
      → put_more xs r ≡ put_more ys s
      → (xs ≡ ys) × (r ≡ s)
  put_more-eq nil nil r s h k e = (refl, tail_eq e)
  put_more-eq nil (cons y ys) r s h k e = absurd (omega (arith, head_eq e))
  put_more-eq (cons x xs) nil r s h k e = absurd (omega (arith, head_eq e))
  put_more-eq (cons x xs) (cons y ys) r s h k e =
      let (first, rest) = put-eq x y _ _ h.0 k.0 (tail_eq e) in
      let (others, after) = put_more-eq xs ys r s h.1 k.1 rest in (cc, after)

  put_members-eq :
      (ms ns : Members) (r s : Bytes)
      → MembersPlain ms
      → MembersPlain ns
      → put_members ms r ≡ put_members ns s
      → (ms ≡ ns) × (r ≡ s)
  put_members-eq end end r s h k e = (refl, tail_eq e)
  put_members-eq end (member l j ns) r s h k e = absurd (omega (arith, head_eq e))
  put_members-eq (member l j ms) end r s h k e = absurd (omega (arith, head_eq e))
  put_members-eq (member l j ms) (member l' j' ns) r s h k e =
      let (keys, rest) = put_chars-eq l l' _ _ h.0 k.0 (tail_eq e) in
      let (values, rest') = put-eq j j' _ _ h.1 k.1 (tail_eq rest) in
      let (others, after) = put_others-eq ms ns r s h.2 k.2 rest' in (cc, after)

  put_others-eq :
      (ms ns : Members) (r s : Bytes)
      → MembersPlain ms
      → MembersPlain ns
      → put_others ms r ≡ put_others ns s
      → (ms ≡ ns) × (r ≡ s)
  put_others-eq end end r s h k e = (refl, tail_eq e)
  put_others-eq end (member l j ns) r s h k e = absurd (omega (arith, head_eq e))
  put_others-eq (member l j ms) end r s h k e = absurd (omega (arith, head_eq e))
  put_others-eq (member l j ms) (member l' j' ns) r s h k e =
      let (keys, rest) = put_chars-eq l l' _ _ h.0 k.0 (tail_eq (tail_eq e)) in
      let (values, rest') = put-eq j j' _ _ h.1 k.1 (tail_eq rest) in
      let (others, after) = put_others-eq ms ns r s h.2 k.2 rest' in (cc, after)

-- Two values are the same exactly when their bytes are.
pub dumps_iff : (x y : Json) → IsPlain x → IsPlain y → (dumps x ≡ dumps y) ↔ (x ≡ y)
unfolding dumps
dumps_iff x y h k = ((λ e. (put-eq x y [] [] h k e).0), ap dumps)
