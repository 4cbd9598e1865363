-- ===== src/Order/Laws.antt =====
-- The orders of numbers, byte strings, pairs and of records with an order on their fields.
use tine_storage.Base.{
  ℕ, ◌≡◌, refl, Bool, true, false, not, ◌&&◌, ◌||◌, [], ◌∷◌, Bytes, ltb, ◌==◌, arith,
}
use tine_storage.Order.{StrictOrder}

pub ltb_irrefl : (a : ℕ) → ltb a a ≡ false
ltb_irrefl a = ground arith

pub ltb_trans : (a b c : ℕ) → ltb a b ≡ true → ltb b c ≡ true → ltb a c ≡ true
ltb_trans a b c h k = ground arith

pub ltb_connected : (a b : ℕ) → ltb a b ≡ false → ltb b a ≡ false → a ≡ b
ltb_connected a b h k = ground arith

unfoldable pub nat_order : StrictOrder ℕ
nat_order = record { lt = ltb; irrefl = ltb_irrefl; trans = ltb_trans; connected = ltb_connected }

-- `<` of byte arrays: at the first byte that differs.
unfoldable pub bytes_lt : Bytes → Bytes → Bool
bytes_lt xs [] = false
bytes_lt [] (y ∷ ys) = true
bytes_lt (x ∷ xs) (y ∷ ys) = ltb x y || (x == y && bytes_lt xs ys)

pub bytes_lt_irrefl : (xs : Bytes) → bytes_lt xs xs ≡ false
unfolding bytes_lt
bytes_lt_irrefl [] = refl
bytes_lt_irrefl (x ∷ xs) = ground (arith, bytes_lt_irrefl xs)

pub bytes_lt_trans :
    (xs ys zs : Bytes) → bytes_lt xs ys ≡ true → bytes_lt ys zs ≡ true → bytes_lt xs zs ≡ true
unfolding bytes_lt
bytes_lt_trans [] ys [] h k = ground arith
bytes_lt_trans (x ∷ xs) ys [] h k = ground arith
bytes_lt_trans [] ys (z ∷ zs) h k = refl
bytes_lt_trans (x ∷ xs) [] (z ∷ zs) h k = ground arith
bytes_lt_trans (x ∷ xs) (y ∷ ys) (z ∷ zs) h k = ground (arith, bytes_lt_trans xs ys zs)

pub bytes_lt_connected : (xs ys : Bytes) → bytes_lt xs ys ≡ false → bytes_lt ys xs ≡ false → xs ≡ ys
unfolding bytes_lt
bytes_lt_connected [] [] h k = refl
bytes_lt_connected [] (y ∷ ys) h k = cc
bytes_lt_connected (x ∷ xs) [] h k = cc
bytes_lt_connected (x ∷ xs) (y ∷ ys) h k = ground (arith, bytes_lt_connected xs ys)

unfoldable pub bytes_order : StrictOrder Bytes
bytes_order = record {
  lt = bytes_lt;
  irrefl = bytes_lt_irrefl;
  trans = bytes_lt_trans;
  connected = bytes_lt_connected;
}

module _ {A B : Type 0} (o : StrictOrder A) (p : StrictOrder B) where
  abbrev pub lex_lt : A × B → A × B → Bool
  lex_lt (a, b) (c, d) = o.lt a c || (not (o.lt c a) && p.lt b d)

  pub lex_irrefl : (x : A × B) → lex_lt x x ≡ false
  lex_irrefl (a, b) = ground (arith, o.irrefl a, p.irrefl b)

  pub lex_trans : (x y z : A × B) → lex_lt x y ≡ true → lex_lt y z ≡ true → lex_lt x z ≡ true
  lex_trans (a, b) (c, d) (e, f) h k = ground (
    arith,
    o.trans a c e,
    o.trans c e a,
    o.trans e a c,
    o.connected a c,
    o.connected c e,
    p.trans b d f,
    o.irrefl a,
    o.irrefl c,
  )

  pub lex_connected : (x y : A × B) → lex_lt x y ≡ false → lex_lt y x ≡ false → x ≡ y
  lex_connected (a, b) (c, d) h k = ground (arith, o.connected a c, p.connected b d)

  -- The derived order of a struct: field after field.
  unfoldable pub lex_order : StrictOrder (A × B)
  lex_order = record {
    lt = lex_lt;
    irrefl = lex_irrefl;
    trans = lex_trans;
    connected = lex_connected;
  }

-- The order of a type that an ordered one reads back.
unfoldable pub order_by :
    {A B : Type 0} (o : StrictOrder B) (key : A → B)
    → ((x y : A) → key x ≡ key y → x ≡ y)
    → StrictOrder A
order_by o key inj = record {
  lt = λ x y. o.lt (key x) (key y);
  irrefl = λ x. o.irrefl (key x);
  trans = λ x y z. o.trans (key x) (key y) (key z);
  connected = λ x y h k. inj x y (o.connected (key x) (key y) h k);
}
