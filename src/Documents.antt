-- ===== src/Documents.antt =====
-- Firestore as the server code sees it: documents with fields of any type, named by an
-- organization's collections, and queries. The database is a parameter of the model: a record of
-- operations on a state `S` with the documented behaviour that the proofs rely on.
use attendence_system.Prelude.{
  ℕ, ◌≤◌, ◌≡◌, Bool, true, false, not, ◌&&◌, ◌||◌, List, Option, none, some, String, leb, ltb, ◌==◌,
  All, all, any, ◌<◌, length, arith, if◌then◌else◌,
}
use attendence_system.Prelude.Text.{str_eq, codes, lex_le}
use attendence_system.Attendance.Types.{Number, whole, negative}

-- A value of a field. A timestamp is a number of nanoseconds since the earliest instant (see
-- Attendance/Clock); `missing` is JavaScript's `undefined`.
mutual
  pub data Value : Type 0 where
    missing null : Value
    text : String → Value
    number : Number → Value
    boolean : Bool → Value
    timestamp : ℕ → Value
    array : Values → Value
    object : Fields → Value

  pub data Values : Type 0 where
    no_values : Values
    value : Value → Values → Values

  pub data Fields : Type 0 where
    no_fields : Fields
    entry : String → Value → Fields → Fields

-- `data[name]`
abbrev pub get : Fields → String → Value
get no_fields name = missing
get (entry n v rest) name = if str_eq n name then v else get rest name

-- `name in data`
abbrev pub has : Fields → String → Bool
has no_fields name = false
has (entry n v rest) name = str_eq n name || has rest name

abbrev pub is_integer : Value → Bool
is_integer (number (whole n)) = true
is_integer (number (negative n)) = true
is_integer _ = false

-- A `typeof value === "string"` test that keeps the text.
abbrev pub as_text : Value → Option String
as_text (text s) = some s
as_text _ = none

-- A `value instanceof Timestamp` test that keeps the time.
abbrev pub as_timestamp : Value → Option ℕ
as_timestamp (timestamp t) = some t
as_timestamp _ = none

abbrev pub is_text : Value → String → Bool
is_text (text s) t = str_eq s t
is_text _ t = false

abbrev pub is_scalar : Value → Bool
is_scalar (text s) = true
is_scalar (number n) = true
is_scalar (boolean b) = true
is_scalar (timestamp t) = true
is_scalar _ = false

-- A document: `snapshot.id`, `snapshot.ref.path` and `snapshot.data()`.
pub record Document : Type 0 where
  pub id : String
  pub path : String
  pub fields : Fields

-- The conditions of a query. Firestore compares texts by their code points.
pub data Condition : Type 0 where
  text_is : String → String → Condition
  boolean_is : String → Bool → Condition
  text_at_most : String → String → Condition
  time_at_least time_below : String → ℕ → Condition
  array_contains : String → String → Condition
  -- `startAfter(name)` and `startAfter(time, name)`
  name_after : String → Condition
  time_and_name_after : String → ℕ → String → Condition

abbrev pub text_le : String → String → Bool
text_le s t = lex_le (codes s) (codes t)

abbrev pub is_boolean : Value → Bool → Bool
is_boolean (boolean true) b = b
is_boolean (boolean false) b = if b then false else true
is_boolean _ b = false

abbrev pub is_text_at_most : Value → String → Bool
is_text_at_most (text s) t = text_le s t
is_text_at_most _ t = false

abbrev pub is_time : Value → (ℕ → Bool) → Bool
is_time (timestamp t) p = p t
is_time _ p = false

abbrev pub any_text : Values → String → Bool
any_text no_values s = false
any_text (value v vs) s = is_text v s || any_text vs s

abbrev pub contains : Value → String → Bool
contains (array vs) s = any_text vs s
contains _ s = false

abbrev pub is_before : Document → Value → ℕ → String → Bool
is_before d (timestamp u) t name = ltb t u || (t == u && not (text_le d.id name))
is_before d _ t name = false

abbrev pub holds : Document → Condition → Bool
holds d (text_is f s) = is_text (get d.fields f) s
holds d (boolean_is f b) = is_boolean (get d.fields f) b
holds d (text_at_most f s) = is_text_at_most (get d.fields f) s
holds d (time_at_least f t) = is_time (get d.fields f) (λ u. leb t u)
holds d (time_below f t) = is_time (get d.fields f) (λ u. ltb u t)
holds d (array_contains f s) = contains (get d.fields f) s
holds d (name_after name) = not (text_le d.id name)
holds d (time_and_name_after f t name) = is_before d (get d.fields f) t name

abbrev pub hold_all : List Condition → Document → Bool
hold_all conditions d = all (holds d) conditions

-- What comes first in the answer: the document's name, or the greatest value of a field.
pub data Order : Type 0 where
  by_name : Order
  by_descending : String → Order
  by_time_and_name : String → Order

-- A place in a collection of an organization: the collection and the document's name.
pub record Place : Type 0 where
  pub organization : String
  pub collection : String
  pub name : String

abbrev pub same_place : Place → Place → Bool
same_place p q =
    str_eq p.organization q.organization && str_eq p.collection q.collection && str_eq p.name q.name

abbrev pub data_of : Option Document → Option Fields
data_of none = none
data_of (some d) = some d.fields

pub other_collection :
    (p q : Place) → str_eq p.collection q.collection ≡ false → same_place p q ≡ false
other_collection p q h = ground arith

-- A document with its place: a `QueryDocumentSnapshot` with its `ref`.
pub record Located : Type 0 where
  pub place : Place
  pub document : Document

abbrev pub field_of : Option Document → String → Value
field_of none name = missing
field_of (some d) name = get d.fields name

abbrev pub collection_is : String → Located → Bool
collection_is c l = str_eq l.place.collection c

-- The document store. `group_query` asks all the collections of one name; `query s organization collection conditions order limit`; `write` replaces a
-- document and `merge` keeps the fields that it does not name.
pub record Database (S : Type 0) : Type 0 where
  pub organization : S → String → Option Document
  pub document : S → Place → Option Document
  pub query : S → String → String → List Condition → Order → ℕ → List Document
  -- `snapshot.size` of a query without a limit
  pub size_of : S → String → String → List Condition → ℕ
  pub group_query : S → String → List Condition → ℕ → List Located
  pub write : Place → Fields → S → S
  pub merge : Place → Fields → S → S
  pub query_holds :
      (s : S) (o c : String) (w : List Condition) (r : Order) (n : ℕ)
      → All (λ d. hold_all w d ≡ true) (query s o c w r n)
  pub query_limit :
      (s : S) (o c : String) (w : List Condition) (r : Order) (n : ℕ)
      → length (query s o c w r n) ≤ n
  -- an answer that is shorter than its limit holds every document that the conditions hold of
  pub query_complete :
      (s : S) (o c : String) (w : List Condition) (r : Order) (n : ℕ) (name : String) (d : Document)
      (q : Document → Bool)
      → length (query s o c w r n) < n
      → document s (record { organization = o; collection = c; name = name }) ≡ some d
      → hold_all w d ≡ true
      → any q (query s o c w r n) ≡ false
      → q d ≡ false
  pub group_query_holds :
      (s : S) (c : String) (w : List Condition) (n : ℕ)
      → All (λ l. hold_all w l.document ≡ true) (group_query s c w n)
  pub group_query_collection :
      (s : S) (c : String) (w : List Condition) (n : ℕ)
      → All (λ l. collection_is c l ≡ true) (group_query s c w n)
  pub document_id : (s : S) (p : Place) (d : Document) → document s p ≡ some d → d.id ≡ p.name
  pub document_write :
      (s : S) (p : Place) (f : Fields) → data_of (document (write p f s) p) ≡ some f
  pub write_other :
      (s : S) (p q : Place) (f : Fields)
      → same_place p q ≡ false
      → document (write p f s) q ≡ document s q
  pub merge_other :
      (s : S) (p q : Place) (f : Fields)
      → same_place p q ≡ false
      → document (merge p f s) q ≡ document s q
  pub merge_scalar :
      (s : S) (p : Place) (f : Fields) (name : String) (v : Value)
      → is_scalar v ≡ true
      → get f name ≡ v
      → field_of (document (merge p f s) p) name ≡ v
  pub merge_absent :
      (s : S) (p : Place) (f : Fields) (name : String)
      → has f name ≡ false
      → field_of (document (merge p f s) p) name ≡ field_of (document s p) name
  pub merge_new :
      (s : S) (p : Place) (f : Fields)
      → document s p ≡ none
      → data_of (document (merge p f s) p) ≡ some f
