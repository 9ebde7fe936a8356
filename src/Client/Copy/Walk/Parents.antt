-- ===== src/Client/Copy/Walk/Parents.antt =====
-- quish-client/src/cp.rs: the order of the directories that `collect_walk` lists.
use mathlib.Core.Option.{some-injective}
use mathlib.Core.Path.{subst}
use quish.Base.{
  ℕ, ◌%◌, ◌≡◌, refl, ap, ◌⊎◌, inl, inr, some, List, [], ◌∷◌, ◌++◌, map, Bool-cases, Option-cases,
  All, false, is_empty,
}
use quish.Base.Text.{Bytes, contains}
use quish.Client.Copy.Walk.{
  Node, Entries, dir, regular, other, unreadable, end, entry, WalkDir, Walk, child_rel, name_leb,
  append_walk, no_walk, insert_part, sort_parts, merge_parts, collect_node, collect_entries,
  collect_walk,
}

abbrev pub Among : Bytes → List Bytes → Type 0
Among r [] = ⊥
Among r (s ∷ ss) = (s ≡ r) ⊎ Among r ss

-- A name that the system gives to a directory's entry.
abbrev pub IsName : Bytes → Type 0
IsName name = (is_empty name ≡ false) × (contains b'/' name ≡ false)

abbrev mutual
  pub IsNamedNode : Node → Type 0
  IsNamedNode (dir mode es) = IsNamed es
  IsNamedNode regular = Unit {0}
  IsNamedNode other = Unit {0}
  IsNamedNode unreadable = Unit {0}

  pub IsNamed : Entries → Type 0
  IsNamed end = Unit {0}
  IsNamed (entry name node es) = IsName name × IsNamedNode node × IsNamed es

-- A path is a name, in the root of the walk or in a directory that was made before.
abbrev pub HasParent : List Bytes → Bytes → Type 0
HasParent made rel =
    (parent : Bytes) × (name : Bytes) × (rel ≡ child_rel parent name)
    × IsName name
    × ((parent ≡ []) ⊎ Among parent made)

-- Each directory comes after its own.
abbrev pub ParentsFirst : List Bytes → List WalkDir → Type 0
ParentsFirst made [] = Unit {0}
ParentsFirst made (d ∷ ds) = HasParent made d.rel × ParentsFirst (d.rel ∷ made) ds

abbrev pub rels : List WalkDir → List Bytes
rels = map (λ d. d.rel)

abbrev Covered : List Bytes → Walk → Type 0
Covered made w = ParentsFirst made w.dirs × All (λ f. HasParent (rels w.dirs ++ made) f) w.files

-- More made directories do no harm.
abbrev pub Within : List Bytes → List Bytes → Type 0
Within made more = (r : Bytes) → Among r made → Among r more

pub HasParent-mono :
    (made more : List Bytes) (rel : Bytes)
    → Within made more
    → HasParent made rel
    → HasParent more rel
HasParent-mono made more rel sub (p, n, e, plain, inl root) = (p, n, e, plain, inl root)
HasParent-mono made more rel sub (p, n, e, plain, inr a) = (p, n, e, plain, inr (sub p a))

Within-cons : (r : Bytes) (made more : List Bytes) → Within made more → Within (r ∷ made) (r ∷ more)
Within-cons r made more sub s (inl e) = inl e
Within-cons r made more sub s (inr a) = inr (sub s a)

ParentsFirst-mono :
    (ds : List WalkDir) (made more : List Bytes)
    → Within made more
    → ParentsFirst made ds
    → ParentsFirst more ds
ParentsFirst-mono [] made more sub h = tt
ParentsFirst-mono (d ∷ ds) made more sub (h, k) = (
  HasParent-mono made more d.rel sub h,
  ParentsFirst-mono ds (d.rel ∷ made) (d.rel ∷ more) (Within-cons d.rel made more sub) k,
)

pub All-map {ℓ κ} :
    {A : Type ℓ} (P Q : A → Type κ) (xs : List A) → ((x : A) → P x → Q x) → All P xs → All Q xs
All-map P Q [] f h = tt
All-map P Q (x ∷ xs) f (h, k) = (f x h, All-map P Q xs f k)

Among-append_left : (r : Bytes) (xs ys : List Bytes) → Among r xs → Among r (xs ++ ys)
Among-append_left r [] ys h = absurd h
Among-append_left r (x ∷ xs) ys (inl e) = inl e
Among-append_left r (x ∷ xs) ys (inr h) = inr (Among-append_left r xs ys h)

Among-append_right : (r : Bytes) (xs ys : List Bytes) → Among r ys → Among r (xs ++ ys)
Among-append_right r [] ys h = h
Among-append_right r (x ∷ xs) ys h = inr (Among-append_right r xs ys h)

ParentsFirst-append :
    (ds es : List WalkDir) (made : List Bytes)
    → ParentsFirst made ds
    → ParentsFirst made es
    → ParentsFirst made (ds ++ es)
ParentsFirst-append [] es made h k = k
ParentsFirst-append (d ∷ ds) es made (h, hs) k = (
  h,
  ParentsFirst-append ds es (d.rel ∷ made) hs
      (ParentsFirst-mono es made (d.rel ∷ made) (λ r a. inr a) k),
)

-- The parts.
abbrev AllCovered : List Bytes → List (Bytes × Walk) → Type 0
AllCovered made = All (λ (p : Bytes × Walk). Covered made p.1)

insert_part-AllCovered :
    (made : List Bytes) (p : Bytes × Walk) (ps : List (Bytes × Walk))
    → Covered made p.1
    → AllCovered made ps
    → AllCovered made (insert_part p ps)
unfolding insert_part
insert_part-AllCovered made p [] h k = (h, tt)
insert_part-AllCovered made p (q ∷ qs) h k = elim (Bool-cases (name_leb p.0 q.0)) [
  | inl e ↦ rw e (h, k)
  | inr e ↦ rw e (k.0, insert_part-AllCovered made p qs h k.1)
]

sort_parts-AllCovered :
    (made : List Bytes) (ps : List (Bytes × Walk))
    → AllCovered made ps
    → AllCovered made (sort_parts ps)
unfolding sort_parts
sort_parts-AllCovered made [] h = tt
sort_parts-AllCovered made (p ∷ ps) (h, k) =
    insert_part-AllCovered made p (sort_parts ps) h (sort_parts-AllCovered made ps k)

rels-append : (ds es : List WalkDir) → rels (ds ++ es) ≡ rels ds ++ rels es
rels-append [] es = refl
rels-append (d ∷ ds) es = ap (λ rs. d.rel ∷ rs) (rels-append ds es)

Within-left :
    (ds es : List WalkDir) (made : List Bytes) → Within (rels ds ++ made) (rels (ds ++ es) ++ made)
Within-left [] es made r a = Among-append_right r (rels es) made a
Within-left (d ∷ ds) es made r (inl e) = inl e
Within-left (d ∷ ds) es made r (inr a) = inr (Within-left ds es made r a)

Within-right :
    (ds es : List WalkDir) (made : List Bytes) → Within (rels es ++ made) (rels (ds ++ es) ++ made)
Within-right [] es made r a = a
Within-right (d ∷ ds) es made r a = inr (Within-right ds es made r a)

All-append : (P : Bytes → Type 0) (xs ys : List Bytes) → All P xs → All P ys → All P (xs ++ ys)
All-append P [] ys h k = k
All-append P (x ∷ xs) ys (h, hs) k = (h, All-append P xs ys hs k)

append_walk-Covered :
    (made : List Bytes) (v w : Walk)
    → Covered made v
    → Covered made w
    → Covered made (append_walk v w)
append_walk-Covered made v w (d, f) (e, g) =
    let all = rels (v.dirs ++ w.dirs) ++ made in
    (
      ParentsFirst-append v.dirs w.dirs made d e,
      All-append (HasParent all) v.files w.files
          (All-map (HasParent (rels v.dirs ++ made)) (HasParent all) v.files
            (λ r. HasParent-mono (rels v.dirs ++ made) all r (Within-left v.dirs w.dirs made)) f)
          (All-map (HasParent (rels w.dirs ++ made)) (HasParent all) w.files
            (λ r. HasParent-mono (rels w.dirs ++ made) all r (Within-right v.dirs w.dirs made)) g),
    )

merge_parts-Covered :
    (made : List Bytes) (ps : List (Bytes × Walk))
    → AllCovered made ps
    → Covered made (merge_parts ps)
unfolding merge_parts
merge_parts-Covered made [] h = (tt, tt)
merge_parts-Covered made (p ∷ ps) (h, k) =
    append_walk-Covered made p.1 (merge_parts ps) h (merge_parts-Covered made ps k)

Within-middle : (r : Bytes) (xs ys : List Bytes) → Within (xs ++ r ∷ ys) (r ∷ xs ++ ys)
Within-middle r [] ys s a = a
Within-middle r (x ∷ xs) ys s (inl e) = inr (inl e)
Within-middle r (x ∷ xs) ys s (inr a) = elim (Within-middle r xs ys s a) [
  | inl e ↦ inl e
  | inr b ↦ inr (inr b)
]

pub middle-Within : (r : Bytes) (xs ys : List Bytes) → Within (r ∷ xs ++ ys) (xs ++ r ∷ ys)
middle-Within r [] ys s a = a
middle-Within r (x ∷ xs) ys s (inl e) = inr (middle-Within r xs ys s (inl e))
middle-Within r (x ∷ xs) ys s (inr (inl e)) = inl e
middle-Within r (x ∷ xs) ys s (inr (inr a)) = inr (middle-Within r xs ys s (inr a))

-- A directory's own path comes before what lies below it.
below-Covered :
    (made : List Bytes) (rel : Bytes) (mode : ℕ) (below : Walk)
    → HasParent made rel
    → Covered (rel ∷ made) below
    → Covered made
        (record { dirs = record { rel = rel; mode = mode } ∷ below.dirs; files = below.files })
below-Covered made rel mode below h (d, f) = (
  (h, d),
  All-map (HasParent (rels below.dirs ++ rel ∷ made)) (HasParent (rel ∷ rels below.dirs ++ made))
      below.files
      (λ r.
        HasParent-mono (rels below.dirs ++ rel ∷ made) (rel ∷ rels below.dirs ++ made) r
          (Within-middle rel (rels below.dirs) made))
      f,
)

carried {ℓ κ} : {A : Type ℓ} (P : A → Type κ) (a b : A) → P a → some a ≡ some b → P b
carried P a b h e = subst P (some-injective a b e) h

-- Each entry of the walk.
mutual
  unfolding collect_node

  collect_node-Covered :
      (made : List Bytes) (rel : Bytes) (node : Node) (w : Walk)
      → HasParent made rel
      → IsNamedNode node
      → collect_node rel node ≡ some w
      → Covered made w
  collect_node-Covered made rel (dir mode es) w h named e =
      elim (Option-cases (collect_entries rel es)) [
        | inl f ↦ absurd (cc (rw f at e))
        | inr (ps, f) ↦
            let below = merge_parts (sort_parts ps) in
            let there : Walk = record {
              dirs = record { rel = rel; mode = mode % 512 } ∷ below.dirs;
              files = below.files;
            } in
            carried (Covered made) there w
              (below-Covered made rel (mode % 512) below h (
                merge_parts-Covered (rel ∷ made) (sort_parts ps) (
                  sort_parts-AllCovered (rel ∷ made) ps
                    (collect_entries-Covered (rel ∷ made) rel es ps (inr (inl refl)) named f))))
              (rw f at e)
      ]
  collect_node-Covered made rel regular w h named e =
      carried (Covered made) (record { dirs = []; files = rel ∷ [] }) w (tt, (h, tt)) e
  collect_node-Covered made rel other w h named e = carried (Covered made) no_walk w (tt, tt) e
  collect_node-Covered made rel unreadable w h named e = absurd (cc e)

  collect_entries-Covered :
      (made : List Bytes) (rel : Bytes) (es : Entries) (ps : List (Bytes × Walk))
      → (rel ≡ []) ⊎ Among rel made
      → IsNamed es
      → collect_entries rel es ≡ some ps
      → AllCovered made ps
  collect_entries-Covered made rel end ps h named e = carried (AllCovered made) [] ps tt e
  collect_entries-Covered made rel (entry name node es) ps h (plain, inner, named) e =
      elim (Option-cases (collect_node (child_rel rel name) node)) [
        | inl f ↦ absurd (cc (rw f at e))
        | inr (v, f) ↦ elim (Option-cases (collect_entries rel es)) [
          | inl g ↦ absurd (cc (rw g at (rw f at e)))
          | inr (qs, g) ↦
              carried (AllCovered made) ((name, v) ∷ qs) ps
                (
                  collect_node-Covered made (child_rel rel name) node v (rel, name, refl, plain, h)
                      inner f,
                  collect_entries-Covered made rel es qs h named g,
                )
                (rw g at (rw f at e))
        ]
      ]

-- In a walk every directory comes after the one that it lies in, and every file lies in one of
-- them or in the root.
pub collect_walk-ParentsFirst :
    (es : Entries) (w : Walk)
    → IsNamed es
    → collect_walk es ≡ some w
    → ParentsFirst [] w.dirs × All (λ f. HasParent (rels w.dirs ++ []) f) w.files
unfolding collect_walk
collect_walk-ParentsFirst es w named e = elim (Option-cases (collect_entries [] es)) [
  | inl f ↦ absurd (cc (rw f at e))
  | inr (ps, f) ↦
      carried (Covered []) (merge_parts (sort_parts ps)) w
        (merge_parts-Covered [] (sort_parts ps)
          (sort_parts-AllCovered [] ps (collect_entries-Covered [] [] es ps (inl refl) named f)))
        (rw f at e)
]
