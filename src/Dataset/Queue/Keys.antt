-- ===== src/Dataset/Queue/Keys.antt =====
-- pkg/dataset/priority_queue.go, Less, compare and compareTo: the order of two rows by the columns
-- of the ORDER BY. proto.CompareValue is a parameter; it gives -1, 0 or 1, and the sign is an
-- `Ordering` here.
use Prim.Native.Nat.{Ordering}
use arana.Prelude.{
  ◌≡◌, refl, sym, ap, ◌∙◌, String, Bool, true, false, Option, none, some, List, [], ◌∷◌,
  if◌then◌else◌,
}

pub record OrderByItem : Type 0 where
  pub column : String
  pub desc : Bool

abbrev pub flip : Ordering → Ordering
flip Ordering.lt = Ordering.gt
flip Ordering.eq = Ordering.eq
flip Ordering.gt = Ordering.lt

abbrev pub is_lt : Ordering → Bool
is_lt Ordering.lt = true
is_lt Ordering.eq = false
is_lt Ordering.gt = false

abbrev pub is_gt : Ordering → Bool
is_gt Ordering.lt = false
is_gt Ordering.eq = false
is_gt Ordering.gt = true

module _ {V : Type 0} (compare_value : V → V → Ordering) where
  -- A nil value is below every other, whether or not the order is descending.
  unfoldable pub compare_to : Option V → Option V → Bool → Ordering
  compare_to none none desc = Ordering.eq
  compare_to none (some b) desc = Ordering.lt
  compare_to (some a) none desc = Ordering.gt
  compare_to (some a) (some b) desc = if desc then flip (compare_value a b) else compare_value a b

  -- if c == 0 { continue }; return c
  unfoldable pub unless_equal : Ordering → Ordering → Ordering
  unless_equal Ordering.lt rest = Ordering.lt
  unless_equal Ordering.eq rest = rest
  unless_equal Ordering.gt rest = Ordering.gt

  module _ {R : Type 0} (get : R → String → Option V) where
    unfoldable pub compare_rows : R → R → List OrderByItem → Ordering
    compare_rows a b [] = Ordering.eq
    compare_rows a b (item ∷ items) =
        unless_equal (compare_to (get a item.column) (get b item.column) item.desc)
          (compare_rows a b items)

    -- Less, on two rows of the queue
    unfoldable pub less_row : List OrderByItem → R → R → Bool
    less_row items a b = is_lt (compare_rows a b items)

-- A comparison that flips with its arguments and whose "not greater" is transitive
abbrev pub Flips : {A : Type 0} → (A → A → Ordering) → Type 0
Flips c = (a b : _) → c b a ≡ flip (c a b)

abbrev pub Chains : {A : Type 0} → (A → A → Ordering) → Type 0
Chains c = (x y z : _) → is_gt (c x y) ≡ false → is_gt (c y z) ≡ false → is_gt (c x z) ≡ false

is_gt-flip : (o : Ordering) → is_gt (flip o) ≡ is_lt o
is_gt-flip Ordering.lt = refl
is_gt-flip Ordering.eq = refl
is_gt-flip Ordering.gt = refl

not_both : (o : Ordering) → is_lt o ≡ true → is_gt o ≡ false
not_both Ordering.lt h = refl
not_both Ordering.eq h = refl
not_both Ordering.gt h = absurd (cc)

module _ {V : Type 0} (compare_value : V → V → Ordering) (flips : Flips compare_value)
    (chains : Chains compare_value) where
  compare_to-Flips : (desc : Bool) → Flips (λ a b. compare_to compare_value a b desc)
  unfolding compare_to
  compare_to-Flips desc none none = refl
  compare_to-Flips desc none (some b) = refl
  compare_to-Flips desc (some a) none = refl
  compare_to-Flips true (some a) (some b) = ap flip (flips a b)
  compare_to-Flips false (some a) (some b) = flips a b

  compare_to-Chains : (desc : Bool) → Chains (λ a b. compare_to compare_value a b desc)
  unfolding compare_to
  compare_to-Chains desc none none none h k = refl
  compare_to-Chains desc none y (some c) h k = refl
  compare_to-Chains desc none (some b) none h k = refl
  compare_to-Chains desc (some a) none z h k = absurd (cc)
  compare_to-Chains desc (some a) (some b) none h k = absurd (cc)
  compare_to-Chains true (some a) (some b) (some c) h k =
      ap is_gt (sym (flips a c))
      ∙ chains c b a (ap is_gt (flips b c) ∙ k) (ap is_gt (flips a b) ∙ h)
  compare_to-Chains false (some a) (some b) (some c) h k = chains a b c h k

  unless_equal-flip :
      (o p : Ordering)
      → unless_equal compare_value (flip o) (flip p) ≡ flip (unless_equal compare_value o p)
  unfolding unless_equal
  unless_equal-flip Ordering.lt p = refl
  unless_equal-flip Ordering.eq p = refl
  unless_equal-flip Ordering.gt p = refl

  unless_equal-first :
      (o p : Ordering) → is_gt (unless_equal compare_value o p) ≡ false → is_gt o ≡ false
  unfolding unless_equal
  unless_equal-first Ordering.lt p h = refl
  unless_equal-first Ordering.eq p h = refl
  unless_equal-first Ordering.gt p h = h

  -- The first comparison of x with y, y with z and x with z, and the rest of each
  unless_equal-chain :
      (xy yz xz p q r : Ordering)
      → (is_gt xy ≡ false → is_gt yz ≡ false → is_gt xz ≡ false)
      → (is_gt yz ≡ false → is_gt (flip xz) ≡ false → is_gt (flip xy) ≡ false)
      → (is_gt (flip xz) ≡ false → is_gt xy ≡ false → is_gt (flip yz) ≡ false)
      → (is_gt p ≡ false → is_gt q ≡ false → is_gt r ≡ false)
      → is_gt (unless_equal compare_value xy p) ≡ false
      → is_gt (unless_equal compare_value yz q) ≡ false
      → is_gt (unless_equal compare_value xz r) ≡ false
  unfolding unless_equal
  unless_equal-chain xy yz Ordering.lt p q r f g k d h i = refl
  unless_equal-chain xy yz Ordering.gt p q r f g k d h i =
      f (unless_equal-first xy p h) (unless_equal-first yz q i)
  unless_equal-chain Ordering.gt yz Ordering.eq p q r f g k d h i = absurd (cc)
  unless_equal-chain Ordering.lt yz Ordering.eq p q r f g k d h i =
      let clash : true ≡ false = g (unless_equal-first yz q i) refl in absurd (cc)
  unless_equal-chain Ordering.eq Ordering.gt Ordering.eq p q r f g k d h i = absurd (cc)
  unless_equal-chain Ordering.eq Ordering.lt Ordering.eq p q r f g k d h i =
      let clash : true ≡ false = k refl refl in absurd (cc)
  unless_equal-chain Ordering.eq Ordering.eq Ordering.eq p q r f g k d h i = d h i

  module _ {R : Type 0} (get : R → String → Option V) where
    compare_rows-Flips :
        (items : List OrderByItem) → Flips (λ a b. compare_rows compare_value get a b items)
    unfolding compare_rows
    compare_rows-Flips [] a b = refl
    compare_rows-Flips (item ∷ items) a b =
        let first = compare_to-Flips item.desc (get a item.column) (get b item.column) in
        let rest = compare_rows-Flips items a b in
        rw (first, rest)
          (unless_equal-flip
            (compare_to compare_value (get a item.column) (get b item.column) item.desc)
            (compare_rows compare_value get a b items))

    compare_rows-Chains :
        (items : List OrderByItem) → Chains (λ a b. compare_rows compare_value get a b items)
    unfolding compare_rows
    compare_rows-Chains [] x y z h i = refl
    compare_rows-Chains (item ∷ items) x y z h i =
        let v = λ (a : R). get a item.column in
        let c = λ (a b : R). compare_to compare_value (v a) (v b) item.desc in
        let fl = compare_to-Flips item.desc in
        let ch = compare_to-Chains item.desc in
        unless_equal-chain (c x y) (c y z) (c x z) (compare_rows compare_value get x y items)
          (compare_rows compare_value get y z items) (compare_rows compare_value get x z items)
          (ch (v x) (v y) (v z))
          (λ a b.
            ap is_gt (sym (fl (v x) (v y)))
            ∙ ch (v y) (v z) (v x) a (ap is_gt (fl (v x) (v z)) ∙ b))
          (λ a b.
            ap is_gt (sym (fl (v y) (v z)))
            ∙ ch (v z) (v x) (v y) (ap is_gt (fl (v x) (v z)) ∙ a) b)
          (compare_rows-Chains items x y z) h i

    less_row-flip :
        (items : List OrderByItem) (a b : R)
        → less_row compare_value get items a b ≡ is_gt (compare_rows compare_value get b a items)
    unfolding less_row
    less_row-flip items a b = sym (
        ap is_gt (compare_rows-Flips items a b)
        ∙ is_gt-flip (compare_rows compare_value get a b items))

    pub less_row-asym :
        (items : List OrderByItem) (a b : R)
        → less_row compare_value get items a b ≡ true
        → less_row compare_value get items b a ≡ false
    unfolding less_row
    less_row-asym items a b h =
        less_row-flip items b a ∙ not_both (compare_rows compare_value get a b items) h

    -- "Not less", the other way round, is transitive.
    pub less_row_trans :
        (items : List OrderByItem) (a b c : R)
        → less_row compare_value get items b a ≡ false
        → less_row compare_value get items c b ≡ false
        → less_row compare_value get items c a ≡ false
    less_row_trans items a b c h i =
        less_row-flip items c a
        ∙ compare_rows-Chains items a b c (sym (less_row-flip items b a) ∙ h)
            (sym (less_row-flip items c b) ∙ i)
