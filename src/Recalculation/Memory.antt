-- ===== src/Recalculation/Memory.antt =====
-- A document store in memory, which the examples run on. A document's path is its name; queries keep
-- the order of the list.
use mathlib.Core.Path.{subst}
use attendence_system.Prelude.{
  any, ◌<◌, if-elim, ℕ, zero, suc, ◌≡◌, refl, sym, ◌∙◌, Bool, true, false, ◌&&◌, arith, List, [],
  ◌∷◌, Option, none, some, String, All, All-filter, Bool-cases, inl, inr, filter, take,
  length-take-le, length, ap, if◌then◌else◌, and-eq_true, or-eq_false,
}
use attendence_system.Prelude.Text.{str_eq, str_eq_refl, str_eq_sound}
use attendence_system.Documents.{
  Fields, no_fields, entry, Document, Condition, hold_all, Order, Place, same_place, Database,
  field_of, is_scalar, Value, get, has, Located, collection_is,
}

pub record Stored : Type 0 where
  pub place : Place
  pub fields : Fields

pub record Memory : Type 0 where
  pub organizations : String → Option Document
  pub documents : List Stored

abbrev document_of : Stored → Document
document_of d = record { id = d.place.name; path = d.place.name; fields = d.fields }

abbrev document_at : List Stored → Place → Option Document
document_at [] p = none
document_at (d ∷ ds) p =
    let rest = document_at ds p in if same_place d.place p then some (document_of d) else rest

abbrev collection : List Stored → String → String → List Document
collection [] o c = []
collection (d ∷ ds) o c =
    let rest = collection ds o c in
    if str_eq d.place.organization o && str_eq d.place.collection c
    then document_of d ∷ rest
    else rest

abbrev without : List Stored → Place → List Stored
without [] p = []
without (d ∷ ds) p = let rest = without ds p in if same_place p d.place then rest else d ∷ rest

abbrev join : Fields → Fields → Fields
join no_fields g = g
join (entry n v f) g = entry n v (join f g)

abbrev old_fields : Option Document → Fields
old_fields none = no_fields
old_fields (some d) = d.fields

abbrev write_at : Place → Fields → Memory → Memory
write_at p f s = record s { documents = record { place = p; fields = f } ∷ without s.documents p }

abbrev find_all : Memory → String → String → List Condition → Order → ℕ → List Document
find_all s o c w r n = take n (filter (hold_all w) (collection s.documents o c))

pub same_place_refl : (p : Place) → same_place p p ≡ true
same_place_refl p =
    rw (str_eq_refl p.organization, str_eq_refl p.collection, str_eq_refl p.name) refl

same_place_sound : (p q r : Place) → same_place p q ≡ true → same_place p r ≡ same_place q r
same_place_sound p q r h =
    let (rest, n) =
      and-eq_true (str_eq p.organization q.organization && str_eq p.collection q.collection) _ h in
    let (o, c) = and-eq_true (str_eq p.organization q.organization) _ rest in
    rw (str_eq_sound _ _ o, str_eq_sound _ _ c, str_eq_sound _ _ n) refl

pub document_at-without :
    (ds : List Stored) (p q : Place)
    → same_place p q ≡ false
    → document_at (without ds p) q ≡ document_at ds q
document_at-without [] p q h = refl
document_at-without (d ∷ ds) p q h = elim (Bool-cases (same_place p d.place)) [
  | inl e ↦
      let differs = sym (same_place_sound p d.place q e) ∙ h in
      rw (e, differs) (document_at-without ds p q h)
  | inr e ↦ rw (e, document_at-without ds p q h) refl
]

same_place-name : (p q : Place) → same_place p q ≡ true → p.name ≡ q.name
same_place-name p q h =
    str_eq_sound p.name q.name
      (and-eq_true (str_eq p.organization q.organization && str_eq p.collection q.collection)
        (str_eq p.name q.name) h).1

pub document_at-id :
    (ds : List Stored) (p : Place) (d : Document) → document_at ds p ≡ some d → d.id ≡ p.name
document_at-id [] p d h = cc
document_at-id (x ∷ xs) p d h = ground (arith, document_at-id xs p d, same_place-name x.place p)

pub All-take {ℓ κ} :
    {A : Type ℓ} (P : A → Type κ) (n : ℕ) (xs : List A) → All P xs → All P (take n xs)
All-take P zero xs h = tt
All-take P (suc n) [] h = tt
All-take P (suc n) (x ∷ xs) h = (h.0, All-take P n xs h.1)

pub All-filter_holds {ℓ} :
    {A : Type ℓ} (p : A → Bool) (xs : List A) → All (λ x. p x ≡ true) (filter p xs)
All-filter_holds p [] = tt
All-filter_holds p (x ∷ xs) = ground (arith, All-filter_holds p xs)

abbrev all_of : List Stored → String → List Located
all_of [] c = []
all_of (d ∷ ds) c =
    let rest = all_of ds c in
    if str_eq d.place.collection c
    then record { place = d.place; document = document_of d } ∷ rest
    else rest

abbrev find_group : Memory → String → List Condition → ℕ → List Located
find_group s c w n = take n (filter (λ l. hold_all w l.document) (all_of s.documents c))

pub all_of-collection :
    (ds : List Stored) (c : String) → All (λ l. collection_is c l ≡ true) (all_of ds c)
all_of-collection [] c = tt
all_of-collection (d ∷ ds) c = ground (arith, all_of-collection ds c)

pub get-join_scalar :
    (f g : Fields) (name : String) (v : Value)
    → is_scalar v ≡ true
    → get f name ≡ v
    → get (join f g) name ≡ v
get-join_scalar no_fields g name v s h = ground arith
get-join_scalar (entry n w f) g name v s h = ground (arith, get-join_scalar f g name v)

pub get-join_absent :
    (f : Fields) (o : Option Document) (name : String)
    → has f name ≡ false
    → get (join f (old_fields o)) name ≡ field_of o name
get-join_absent no_fields none name h = refl
get-join_absent no_fields (some d) name h = refl
get-join_absent (entry n w f) o name h =
    let (differs, rest) = or-eq_false (str_eq n name) (has f name) h in
    rw (differs) (get-join_absent f o name rest)

pub take-short {ℓ} : {A : Type ℓ} (n : ℕ) (xs : List A) → length (take n xs) < n → take n xs ≡ xs
take-short zero xs h = absurd (omega arith)
take-short (suc n) [] h = refl
take-short (suc n) (x ∷ xs) h = ap (λ ys. x ∷ ys) (take-short n xs (omega arith))

any-head {ℓ} :
    {A : Type ℓ} (p q : A → Bool) (x : A) (xs : List A)
    → p x ≡ true
    → any q (filter p (x ∷ xs)) ≡ false
    → q x ≡ false
any-head p q x xs h f = ground arith

any-tail {ℓ} :
    {A : Type ℓ} (p q : A → Bool) (b : Bool) (x : A) (xs : List A)
    → any q (filter p (if b then x ∷ xs else xs)) ≡ false
    → any q (filter p xs) ≡ false
any-tail p q b x xs f = ground arith

pub any-holds :
    (ds : List Stored) (w : List Condition) (q : Document → Bool) (p : Place) (x : Document)
    → document_at ds p ≡ some x
    → hold_all w x ≡ true
    → any q (filter (hold_all w) (collection ds p.organization p.collection)) ≡ false
    → q x ≡ false
any-holds [] w q p x h e f = cc
any-holds (d ∷ ds) w q p x h e f =
    if-elim (same_place d.place p) (some (document_of d)) (document_at ds p) h
      (λ same found.
        let here = (and-eq_true _ (str_eq d.place.name p.name) same).0 in
        let is_x : document_of d ≡ x = cc in
        subst (λ y. q y ≡ false) is_x
          (any-head (hold_all w) q (document_of d) (collection ds p.organization p.collection)
            (ap (hold_all w) is_x ∙ e)
            (subst
              (λ b.
                any q (
                  filter (hold_all w) (
                    if b
                    then document_of d ∷ collection ds p.organization p.collection
                    else collection ds p.organization p.collection))
                ≡ false)
              here f)))
      λ other found. any-holds ds w q p x found e (
        any-tail (hold_all w) q
          (str_eq d.place.organization p.organization && str_eq d.place.collection p.collection)
          (document_of d) (collection ds p.organization p.collection) f)

pub join-no_fields : (f : Fields) → join f no_fields ≡ f
join-no_fields no_fields = refl
join-no_fields (entry n v f) = ap (λ g. entry n v g) (join-no_fields f)

unfoldable pub memory : Database Memory
memory = record {
  organization = λ s o. s.organizations o;
  document = λ s p. document_at s.documents p;
  query = find_all;
  size_of = λ s o c w. length (filter (hold_all w) (collection s.documents o c));
  group_query = find_group;
  write = write_at;
  merge = λ p f s. write_at p (join f (old_fields (document_at s.documents p))) s;
  query_holds = λ s o c w r n.
      All-take (λ d. hold_all w d ≡ true) n _
        (All-filter_holds (hold_all w) (collection s.documents o c));
  query_limit = λ s o c w r n. length-take-le n _;
  query_complete = λ s o c w r n name d q short h e f.
      any-holds s.documents w q (record { organization = o; collection = c; name = name }) d h e
        (subst (λ xs. any q xs ≡ false)
          (take-short n (filter (hold_all w) (collection s.documents o c)) short) f);
  group_query_holds = λ s c w n.
      All-take (λ l. hold_all w l.document ≡ true) n _
        (All-filter_holds (λ l. hold_all w l.document) (all_of s.documents c));
  group_query_collection = λ s c w n.
      All-take (λ l. collection_is c l ≡ true) n _
        (All-filter (λ l. collection_is c l ≡ true) (λ l. hold_all w l.document) _
          (all_of-collection s.documents c));
  document_id = λ s p d h. document_at-id s.documents p d h;
  document_write = λ s p f. rw (same_place_refl p) refl;
  write_other = λ s p q f h. rw (h) (document_at-without s.documents p q h);
  merge_other = λ s p q f h. rw (h) (document_at-without s.documents p q h);
  merge_scalar = λ s p f name v c h.
      rw (same_place_refl p)
        (get-join_scalar f (old_fields (document_at s.documents p)) name v c h);
  merge_absent =
      λ s p f name h. rw (same_place_refl p) (get-join_absent f (document_at s.documents p) name h);
  merge_new = λ s p f h. rw (same_place_refl p, h, join-no_fields f) refl;
}
