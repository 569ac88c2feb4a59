-- ===== src/Ingress/Rules/Order.antt =====
-- Sorted rules: what the comparison of the rules orders, and that a sorted list is determined by
-- the rules that it holds.
use cloudflare_tunnel_operat.Base.{
  String, ◌≡◌, refl, true, false, Option, none, some, List, [], ◌∷◌, ◌==◌, eq_iff, eq_refl,
  str_lt_irrefl, str_lt_trans, str_lt_total, str_lt_asymm, arith, All, Bool-cases, if◌then◌else◌,
  inl, inr,
}
use cloudflare_tunnel_operat.Base.Dict.{Dict, lookup, NodupKeys}
use cloudflare_tunnel_operat.Domain.{IngressRule}
use cloudflare_tunnel_operat.Ingress.Rules.{comes_before, insert_rule, sorted_values}

-- The first rule of a hostname.
unfoldable pub find_rule : String → List IngressRule → Option IngressRule
find_rule h [] = none
find_rule h (r ∷ rs) = if r.hostname == h then some r else find_rule h rs

abbrev pub Before : IngressRule → IngressRule → Type 0
Before a b = comes_before a b ≡ true

-- Every rule comes before all that stand behind it.
abbrev pub IsSorted : List IngressRule → Type 0
IsSorted [] = Unit
IsSorted (r ∷ rs) = All (Before r) rs × IsSorted rs

Before-trans : (a b c : IngressRule) → Before a b → Before b c → Before a c
unfolding comes_before
Before-trans a b c h k = ground (arith, str_lt_trans a.hostname b.hostname c.hostname)

Before-total :
    (a b : IngressRule) → comes_before a b ≡ false → (a.hostname == b.hostname) ≡ false → Before b a
unfolding comes_before
Before-total a b h k = ground (
  arith,
  str_lt_total a.hostname b.hostname,
  eq_iff a.hostname b.hostname,
  eq_iff a.hostname "",
  eq_iff b.hostname "",
)

Before-asymm : (a b : IngressRule) → Before a b → comes_before b a ≡ false
unfolding comes_before
Before-asymm a b h = ground (arith, str_lt_asymm a.hostname b.hostname)

Before-ne : (a b : IngressRule) → Before a b → (a.hostname == b.hostname) ≡ false
unfolding comes_before
Before-ne a b h = ground (
  arith,
  str_lt_irrefl a.hostname,
  eq_iff a.hostname b.hostname,
  eq_iff a.hostname "",
  eq_iff b.hostname "",
)

All-Before :
    (a b : IngressRule) (rs : List IngressRule) → Before a b → All (Before b) rs → All (Before a) rs
All-Before a b [] h k = tt
All-Before a b (r ∷ rs) h k = (Before-trans a b r h k.0, All-Before a b rs h k.1)

All-insert :
    (a x : IngressRule) (rs : List IngressRule)
    → Before a x
    → All (Before a) rs
    → All (Before a) (insert_rule x rs)
unfolding insert_rule
All-insert a x [] h k = (h, tt)
All-insert a x (r ∷ rs) h k = elim (Bool-cases (comes_before x r)) [
  | inl e ↦ rw e (h, k)
  | inr e ↦ rw e (k.0, All-insert a x rs h k.1)
]

insert-IsSorted :
    (x : IngressRule) (rs : List IngressRule)
    → find_rule x.hostname rs ≡ none
    → IsSorted rs
    → IsSorted (insert_rule x rs)
unfolding insert_rule find_rule
insert-IsSorted x [] f s = (tt, tt)
insert-IsSorted x (r ∷ rs) f s = elim (Bool-cases (comes_before x r)) [
  | inl e ↦ rw e ((e, All-Before x r rs e s.0), s)
  | inr e ↦ rw e (
    All-insert r x rs
        (Before-total x r e
          (ground (arith, eq_iff x.hostname r.hostname, eq_iff r.hostname x.hostname)))
        s.0,
    insert-IsSorted x rs (ground arith) s.1,
  )
]

find-insert :
    (h : String) (x : IngressRule) (rs : List IngressRule)
    → find_rule x.hostname rs ≡ none
    → find_rule h (insert_rule x rs) ≡ (if x.hostname == h then some x else find_rule h rs)
unfolding insert_rule find_rule
find-insert h x [] f = refl
find-insert h x (r ∷ rs) f = ground (
  arith,
  find-insert h x rs,
  eq_iff x.hostname h,
  eq_iff r.hostname h,
  eq_iff r.hostname x.hostname,
)

-- No rule of a hostname that comes before all.
pub find_none :
    (r : IngressRule) (rs : List IngressRule) → All (Before r) rs → find_rule r.hostname rs ≡ none
unfolding find_rule
find_none r [] k = refl
find_none r (x ∷ rs) k = ground (
  arith,
  Before-ne r x k.0,
  eq_iff r.hostname x.hostname,
  eq_iff x.hostname r.hostname,
  find_none r rs k.1,
)

find_absent :
    (x y : IngressRule) (ys : List IngressRule)
    → find_rule x.hostname (y ∷ ys) ≡ some x
    → (y.hostname == x.hostname) ≡ false
    → All (Before y) ys
    → Before y x
unfolding find_rule
find_absent x y [] f n k = ground arith
find_absent x y (z ∷ zs) f n k = elim (Bool-cases (z.hostname == x.hostname)) [
  | inl e ↦ ground (arith, e, k.0)
  | inr e ↦ find_absent x y zs (ground arith) n k.1
]

-- Two sorted lists that hold the same rule, or none, for every hostname have the same head.
heads_eq :
    (x y : IngressRule) (xs ys : List IngressRule)
    → IsSorted (x ∷ xs)
    → IsSorted (y ∷ ys)
    → ((h : String) → find_rule h (x ∷ xs) ≡ find_rule h (y ∷ ys))
    → x ≡ y
unfolding find_rule
heads_eq x y xs ys s t same = elim (Bool-cases (y.hostname == x.hostname)) [
  | inl e ↦ ground (arith, same x.hostname, eq_refl x.hostname)
  | inr n ↦
      let at_x : find_rule x.hostname (y ∷ ys) ≡ some x =
        ground (arith, same x.hostname, eq_refl x.hostname) in
      let at_y : find_rule y.hostname (x ∷ xs) ≡ some y =
        ground (arith, same y.hostname, eq_refl y.hostname) in
      let yx : Before y x = find_absent x y ys at_x n t.0 in
      let xy : Before x y =
        find_absent y x xs at_y
          (ground (arith, eq_iff x.hostname y.hostname, eq_iff y.hostname x.hostname)) s.0 in
      ground (arith, Before-asymm x y xy)
]

-- Two sorted lists that hold the same rule, or none, for every hostname are equal.
pub Sorted_ext :
    (xs ys : List IngressRule)
    → IsSorted xs
    → IsSorted ys
    → ((h : String) → find_rule h xs ≡ find_rule h ys)
    → xs ≡ ys
unfolding find_rule
Sorted_ext [] [] s t same = refl
Sorted_ext [] (y ∷ ys) s t same = ground (arith, same y.hostname, eq_refl y.hostname)
Sorted_ext (x ∷ xs) [] s t same = ground (arith, same x.hostname, eq_refl x.hostname)
Sorted_ext (x ∷ xs) (y ∷ ys) s t same =
    let heads = heads_eq x y xs ys s t same in cc (heads, Sorted_ext xs ys s.1 t.1 tails)
  where
    tails : (h : String) → find_rule h xs ≡ find_rule h ys
    tails h = ground (
      arith,
      same h,
      heads_eq x y xs ys s t same,
      find_none x xs s.0,
      find_none y ys t.0,
      eq_iff x.hostname h,
      eq_iff y.hostname h,
    )

-- Every rule stands under its own hostname.
abbrev pub Keyed : Dict IngressRule → Type 0
Keyed [] = Unit
Keyed ((k, r) ∷ m) = (r.hostname ≡ k) × Keyed m

pub find-sorted_values :
    (m : Dict IngressRule) (h : String)
    → Keyed m
    → NodupKeys m
    → find_rule h (sorted_values m) ≡ lookup h m
unfolding sorted_values lookup find_rule
find-sorted_values [] h k n = refl
find-sorted_values ((j, r) ∷ m) h k n = ground (
  arith,
  find-insert h r (sorted_values m),
  find-sorted_values m r.hostname k.1 n.1,
  find-sorted_values m h k.1 n.1,
  k.0,
)

pub sorted_values-IsSorted :
    (m : Dict IngressRule) → Keyed m → NodupKeys m → IsSorted (sorted_values m)
unfolding sorted_values
sorted_values-IsSorted [] k n = tt
sorted_values-IsSorted ((j, r) ∷ m) k n =
    insert-IsSorted r (sorted_values m)
      (ground (arith, find-sorted_values m r.hostname k.1 n.1, k.0, n.0))
      (sorted_values-IsSorted m k.1 n.1)
