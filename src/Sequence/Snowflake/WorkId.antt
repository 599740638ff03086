-- ===== src/Sequence/Snowflake/WorkId.antt =====
-- Which work id a node gets, and whether another node holds it.
use Prim.Native.Nat.{max}
use arana.Prelude.{
  ℕ, ◌+◌, ◌≤◌, ◌<◌, ◌≡◌, ◌≢◌, ◌⊎◌, refl, sym, ap, ◌∙◌, subst, inl, inr, List, [], ◌∷◌, Option, none,
  some, Bool, true, false, ◌||◌, arith, ◌==◌, if◌then◌else◌, Bool-cases,
}
use arana.Prelude.Go.{ret}
use arana.Sequence.Snowflake.{
  Snowflake, Row, Started, no_fault, work_id_max, max_work_id, select_self, select_max, select_free,
  find_work_id, replace_row, init_worker_id,
}

abbrev pub In : Row → List Row → Type 0
In r [] = ⊥
In r (x ∷ xs) = (x ≡ r) ⊎ In r xs

-- No row that the condition selects is above the maximum.
abbrev IsAbove : ℕ → Option ℕ → Type 0
IsAbove id none = ⊥
IsAbove id (some m) = id ≤ m

-- The maximum of a row and the rows after it
abbrev top_of : ℕ → Option ℕ → ℕ
top_of w none = w
top_of w (some m) = max w m

top_of_self : (w : ℕ) (o : Option ℕ) → w ≤ top_of w o
top_of_self w none = omega arith
top_of_self w (some m) = omega arith

top_of-rest : (id w : ℕ) (o : Option ℕ) → IsAbove id o → id ≤ top_of w o
top_of-rest id w none h = absurd h
top_of-rest id w (some m) h = omega arith

max_work_id-cons :
    (p : Row → Bool) (x : Row) (rows : List Row)
    → max_work_id p (x ∷ rows)
      ≡ (if p x then some (top_of x.work_id (max_work_id p rows)) else max_work_id p rows)
unfolding max_work_id
max_work_id-cons p x rows = ground arith

max_work_id-IsAbove :
    (p : Row → Bool) (r : Row) (rows : List Row)
    → In r rows
    → p r ≡ true
    → IsAbove r.work_id (max_work_id p rows)
max_work_id-IsAbove p r [] h sel = absurd h
max_work_id-IsAbove p r (x ∷ rows) (inl e) sel =
    rw (max_work_id-cons p x rows, ap p e ∙ sel)
      (subst (λ (q : Row). q.work_id ≤ top_of x.work_id (max_work_id p rows)) e
        (top_of_self x.work_id (max_work_id p rows)))
max_work_id-IsAbove p r (x ∷ rows) (inr h) sel =
    let rest = max_work_id-IsAbove p r rows h sel in
    elim (Bool-cases (p x)) [
      | inl chosen ↦
          rw (max_work_id-cons p x rows, chosen)
            (top_of-rest r.work_id x.work_id (max_work_id p rows) rest)
      | inr skipped ↦ rw (max_work_id-cons p x rows, skipped) rest
    ]

not-select_self :
    (node : ℕ) (r : Row) (rows : List Row)
    → In r rows
    → select_self node rows ≡ none
    → r.node ≢ node
unfolding select_self
not-select_self node r [] h e = absurd h
not-select_self node r (x ∷ rows) (inl same) e = λ p. ground (arith, ap (λ (q : Row). q.node) same)
not-select_self node r (x ∷ rows) (inr h) e = λ p. ground (arith, not-select_self node r rows h)

other_row :
    (id node : ℕ) (x : Row)
    → x.work_id ≢ id
    → x.node ≢ node
    → (x.work_id == id || x.node == node) ≡ false
other_row id node x i n = ground arith

replace_row-keeps :
    (id node : ℕ) (r : Row) (rows : List Row)
    → In r rows
    → r.work_id ≢ id
    → r.node ≢ node
    → In r (replace_row id node rows)
unfolding replace_row
replace_row-keeps id node r [] h i n = absurd h
replace_row-keeps id node r (x ∷ rows) (inl same) i n =
    rw
      (other_row id node x (λ p. i (ap (λ (q : Row). q.work_id) (sym same) ∙ p))
        (λ p. n (ap (λ (q : Row). q.node) (sym same) ∙ p)))
      (inl same)
replace_row-keeps id node r (x ∷ rows) (inr h) i n =
    elim (Bool-cases (x.work_id == id || x.node == node)) [
      | inl out ↦ rw out (replace_row-keeps id node r rows h i n)
      | inr stays ↦ rw stays (inr (replace_row-keeps id node r rows h i n))
    ]

replace_row-adds :
    (id node : ℕ) (rows : List Row)
    → In (record { work_id = id; node = node; stale = false }) (replace_row id node rows)
unfolding replace_row
replace_row-adds id node [] = inl refl
replace_row-adds id node (x ∷ rows) = elim (Bool-cases (x.work_id == id || x.node == node)) [
  | inl out ↦ rw out (replace_row-adds id node rows)
  | inr stays ↦ rw stays (inr (replace_row-adds id node rows))
]

-- No row has the work id, and each is still there afterwards.
abbrev pub NewAmong : ℕ → List Row → List Row → Type 0
NewAmong id [] after = Unit
NewAmong id (r ∷ rows) after = (r.work_id ≢ id) × In r after × NewAmong id rows after

all_of :
    {id : ℕ} (after rows : List Row)
    → ((r : Row) → In r rows → (r.work_id ≢ id) × In r after)
    → NewAmong id rows after
all_of after [] h = tt
all_of after (r ∷ rows) h =
    let (new, kept) = h r (inl refl) in (new, kept, all_of after rows λ q k. h q (inr k))

-- A node that is new to a table with rows, whose largest work id is below 1024, gets the work id
-- after that, which no row holds; its own row is added, and the row of every other node stays.
pub init_worker_id-fresh :
    (node top : ℕ) (seq : Snowflake) (rows : List Row)
    → select_self node rows ≡ none
    → select_max rows ≡ some top
    → top < work_id_max
    → (s : Started) × (init_worker_id no_fault node seq rows ≡ ret s)
      × (s.failed ≡ false)
      × (s.seq ≡ record seq { work_id = top + 1 })
      × In (record { work_id = top + 1; node = node; stale = false }) s.rows
      × NewAmong (top + 1) rows s.rows
unfolding init_worker_id find_work_id select_max
init_worker_id-fresh node top seq rows new e room = (
  record {
    seq = record seq { work_id = top + 1 };
    rows = replace_row (top + 1) node rows;
    failed = false;
  },
  ground arith,
  refl,
  refl,
  replace_row-adds (top + 1) node rows,
  all_of _ rows λ r h.
      let below : r.work_id ≤ top =
        subst (IsAbove r.work_id) e (max_work_id-IsAbove (λ q. true) r rows h refl) in
      (
        omega arith,
        replace_row-keeps (top + 1) node r rows h (omega arith) (not-select_self node r rows h new),
      ),
)

-- When every work id is taken and some are stale, a new node does not get a stale one: it gets
-- the work id after the largest of them, which the row of a node that is not stale holds.
pub find_work_id-takes_live :
    (node free : ℕ) (rows : List Row)
    → select_self node rows ≡ none
    → select_max rows ≡ some work_id_max
    → select_free rows ≡ some free
    → free < work_id_max
    → ((id : ℕ) → 1 ≤ id → id ≤ work_id_max → (r : Row) × In r rows × (r.work_id ≡ id))
    → (find_work_id node rows ≡ ret (free + 1))
      × ((r : Row) × In r rows × (r.work_id ≡ free + 1) × (r.stale ≡ false) × (r.node ≢ node))
unfolding find_work_id select_free
find_work_id-takes_live node free rows new full e lt all =
    let (r, held, same) = all (free + 1) (omega arith) (omega arith) in
    elim (Bool-cases r.stale) [
      | inl stale ↦
          let below : r.work_id ≤ free =
            subst (IsAbove r.work_id) e (max_work_id-IsAbove (λ q. q.stale) r rows held stale) in
          absurd (omega arith)
      | inr live ↦ (ground arith, (r, held, same, live, not-select_self node r rows held new))
    ]
