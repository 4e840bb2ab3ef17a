-- ===== src/Device/Hints/Order.antt =====
-- The class that the hints choose (classifyByHints in internal/device/profiles.go).
use mathlib.Core.List.{Permᴰ}
use statehouse.Prelude.{
  ℕ, Float64, true, false, ◌≡◌, refl, sym, ap, ◌∙◌, arith, inl, inr, Option, none, some, List, [],
  ◌∷◌, Str, str_lt-total, str_lt_trans, str_lt_irrefl, Bool-cases,
}
use statehouse.Strings.{Unicode, to_lower}
use statehouse.Config.{DeviceClassConfig}
use statehouse.Device.Hints.{
  Map, Match, before, insert_match, sort_matches, first_class, first_hint, matches, add_match,
  classify_by_hints,
}

before-total : (m n : Match) → before m n ≡ false → before n m ≡ false → m ≡ n
unfolding before
before-total m n h k = ground (arith, str_lt-total m.class n.class)

before_trans : (l m n : Match) → before l m ≡ true → before m n ≡ true → before l n ≡ true
unfolding before
before_trans l m n h k = ground (arith, str_lt_trans l.class m.class n.class)

before_irrefl : (m : Match) → before m m ≡ false
unfolding before
before_irrefl m = ground (arith, str_lt_irrefl m.class)

insert_past :
    (m n : Match) (ns : List Match)
    → before n m ≡ true
    → insert_match m (n ∷ ns) ≡ n ∷ insert_match m ns
unfolding insert_match
insert_past m n ns h = rw h refl

insert_here :
    (m n : Match) (ns : List Match) → before n m ≡ false → insert_match m (n ∷ ns) ≡ m ∷ n ∷ ns
unfolding insert_match
insert_here m n ns h = rw h refl

-- What stands after an element that follows another follows it too.
before_through : (m n l : Match) → before n m ≡ false → before n l ≡ true → before m l ≡ true
before_through m n l h k = elim (Bool-cases (before m n)) [
  | inl e ↦ before_trans m n l e k
  | inr e ↦ rw (before-total m n e h) k
]

-- Two elements enter in front of the same one.
insert_both_here :
    (l m n : Match) (ns : List Match)
    → before n l ≡ false
    → before n m ≡ false
    → insert_match l (m ∷ n ∷ ns) ≡ insert_match m (l ∷ n ∷ ns)
insert_both_here l m n ns h k = elim (Bool-cases (before m l)) [
  | inl e ↦ elim (Bool-cases (before l m)) [
    | inl f ↦ let loop = sym (before_irrefl l) ∙ before_trans l m l f e in cc
    | inr f ↦
        insert_past l m (n ∷ ns) e
        ∙ ap (λ z. m ∷ z) (insert_here l n ns h)
        ∙ sym (insert_here m l (n ∷ ns) f)
  ]
  | inr e ↦ elim (Bool-cases (before l m)) [
    | inl f ↦
        insert_here l m (n ∷ ns) e
        ∙ sym (insert_past m l (n ∷ ns) f ∙ ap (λ z. l ∷ z) (insert_here m n ns k))
    | inr f ↦ rw (before-total l m f e) refl
  ]
]

-- One element passes the head, and the other does not.
insert_one_here :
    (l m n : Match) (ns : List Match)
    → before n l ≡ true
    → before n m ≡ false
    → insert_match l (insert_match m (n ∷ ns)) ≡ insert_match m (insert_match l (n ∷ ns))
insert_one_here l m n ns h k =
    ap (insert_match l) (insert_here m n ns k)
    ∙ insert_past l m (n ∷ ns) (before_through m n l k h)
    ∙ ap (λ z. m ∷ z) (insert_past l n ns h)
    ∙ sym (insert_here m n (insert_match l ns) k)
    ∙ ap (insert_match m) (sym (insert_past l n ns h))

insert_two : (l m : Match) → insert_match l (insert_match m []) ≡ insert_match m (insert_match l [])
unfolding insert_match
insert_two l m = ground (arith, before-total l m, before_trans l m l, before_irrefl l)

insert_match-swap :
    (l m : Match) (ns : List Match)
    → insert_match l (insert_match m ns) ≡ insert_match m (insert_match l ns)
insert_match-swap l m [] = insert_two l m
insert_match-swap l m (n ∷ ns) = elim (Bool-cases (before n l)) [
  | inl h ↦ elim (Bool-cases (before n m)) [
    | inl k ↦
        ap (insert_match l) (insert_past m n ns k)
        ∙ insert_past l n (insert_match m ns) h
        ∙ ap (λ z. n ∷ z) (insert_match-swap l m ns)
        ∙ sym (insert_past m n (insert_match l ns) k)
        ∙ ap (insert_match m) (sym (insert_past l n ns h))
    | inr k ↦ insert_one_here l m n ns h k
  ]
  | inr h ↦ elim (Bool-cases (before n m)) [
    | inl k ↦ sym (insert_one_here m l n ns k h)
    | inr k ↦
        ap (insert_match l) (insert_here m n ns k)
        ∙ insert_both_here l m n ns h k
        ∙ ap (insert_match m) (sym (insert_here l n ns h))
  ]
]

sort-add_match :
    (c : Str) (o : Option ℕ) (ms ns : List Match)
    → sort_matches ms ≡ sort_matches ns
    → sort_matches (add_match c o ms) ≡ sort_matches (add_match c o ns)
unfolding sort_matches
sort-add_match c none ms ns h = h
sort-add_match c (some l) ms ns h = ap (insert_match (record { class = c; hint_len = l })) h

add_match-swap :
    (b c : Str) (o p : Option ℕ) (ms ns : List Match)
    → sort_matches ms ≡ sort_matches ns
    → sort_matches (add_match b o (add_match c p ms))
      ≡ sort_matches (add_match c p (add_match b o ns))
unfolding sort_matches
add_match-swap b c none p ms ns h = sort-add_match c p ms ns h
add_match-swap b c (some k) none ms ns h = ap (insert_match (record { class = b; hint_len = k })) h
add_match-swap b c (some k) (some l) ms ns h =
    let m : Match = record { class = b; hint_len = k } in
    let n : Match = record { class = c; hint_len = l } in
    insert_match-swap m n (sort_matches ms) ∙ ap (λ z. insert_match n (insert_match m z)) h

module _ ⦃fl : Float64⦄ (u : Unicode) where
  sorted-Permᴰ :
      (n : Str) {cs ds : Map DeviceClassConfig}
      → Permᴰ cs ds
      → sort_matches (matches u n cs) ≡ sort_matches (matches u n ds)
  unfolding matches
  sorted-Permᴰ n Permᴰ.nil = refl
  sorted-Permᴰ n (Permᴰ.cons {a = a} {l₁ = cs} {l₂ = ds} e p) = rw (← e) (
      sort-add_match a.0 (first_hint u n a.1.name_hints) (matches u n cs) (matches u n ds)
        (sorted-Permᴰ n p))
  sorted-Permᴰ n (Permᴰ.swap {a = a} {b = b} {l = l} e f) =
      rw (← e, ← f)
        (add_match-swap a.0 b.0 (first_hint u n a.1.name_hints) (first_hint u n b.1.name_hints)
          (matches u n l) (matches u n l) refl)
  sorted-Permᴰ n (Permᴰ.trans p q) = sorted-Permᴰ n p ∙ sorted-Permᴰ n q

  -- The class that the hints choose for a name does not depend on the order in which the map of
  -- classes is walked.
  pub classify_by_hints-Perm :
      (name : Str) (cs ds : Map DeviceClassConfig)
      → Permᴰ cs ds
      → classify_by_hints u cs name ≡ classify_by_hints u ds name
  unfolding classify_by_hints
  classify_by_hints-Perm name cs ds p =
      ground (arith, ap first_class (sorted-Permᴰ (to_lower u name) p))
