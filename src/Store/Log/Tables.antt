-- ===== src/Store/Log/Tables.antt =====
-- How the two tables look after an insertion, an update or a deletion.
use jadeenvoy.Prelude.{
  ℕ, suc, ◌<◌, ◌≤◌, String, ◌≡◌, refl, false, none, some, List, [], ◌∷◌, ◌++◌, arith, str_eq,
  str_eq_iff, if◌then◌else◌, some_of, sort_by, insert_by, Bool-cases, inl, inr, Option, map, select,
  not, Bool, ap, subst, true,
}
use jadeenvoy.Rows.{EventRow, SessionRow, find_session, update_session, events_of}
use jadeenvoy.Store.Event.{clashes, by_seq, of_types}
use jadeenvoy.Store.Log.{Numbered}

pub events_of-append :
    (id : String) (es : List EventRow) (e : EventRow)
    → events_of id (es ++ e ∷ [])
      ≡ (if str_eq e.session_id id then events_of id es ++ e ∷ [] else events_of id es)
events_of-append id [] e = ground arith
events_of-append id (x ∷ es) e = ground (arith, events_of-append id es e)

abbrev pub on_row : (SessionRow → SessionRow) → Option SessionRow → Option SessionRow
on_row f none = none
on_row f (some r) = some (f r)

-- The row of one session after an update of another or of itself.
pub find-update :
    (id j : String) (f : SessionRow → SessionRow) (rows : List SessionRow)
    → ((r : SessionRow) → (f r).id ≡ r.id)
    → find_session id (update_session j f rows)
      ≡ (if str_eq j id then on_row f (find_session id rows) else find_session id rows)
find-update id j f [] keeps = ground arith
find-update id j f (r ∷ rows) keeps = ground (
  arith,
  find-update id j f rows keeps,
  keeps r,
  str_eq_iff r.id id,
  str_eq_iff r.id j,
  str_eq_iff j id,
)

pub find-id :
    (id : String) (rows : List SessionRow) (r : SessionRow)
    → find_session id rows ≡ some r
    → r.id ≡ id
find-id id [] r h = ground arith
find-id id (x ∷ rows) r h = ground (arith, find-id id rows r, str_eq_iff x.id id)

-- ORDER BY seq has nothing to do, with a condition or without.
insert_by-select :
    (p : EventRow → Bool) (e : EventRow) (es : List EventRow) (lo hi : ℕ)
    → e.seq < lo
    → Numbered lo es hi
    → insert_by by_seq e (select p es) ≡ e ∷ select p es
insert_by-select p e [] lo hi h n = refl
insert_by-select p e (x ∷ es) lo hi h n =
    ground (arith, n.0, insert_by-select p e es (suc lo) hi (omega arith) n.1)

sort_by-select :
    (p : EventRow → Bool) (es : List EventRow) (lo hi : ℕ)
    → Numbered lo es hi
    → sort_by by_seq (select p es) ≡ select p es
sort_by-select p [] lo hi n = refl
sort_by-select p (e ∷ es) lo hi n = ground (
  arith,
  n.0,
  sort_by-select p es (suc lo) hi n.1,
  insert_by-select p e es (suc lo) hi (omega arith) n.1,
)

select-true : (es : List EventRow) → select (λ e. true) es ≡ es
select-true [] = refl
select-true (e ∷ es) = ap (λ l. e ∷ l) (select-true es)

pub sort_of_types :
    (types : List String) (es : List EventRow) (lo hi : ℕ)
    → Numbered lo es hi
    → sort_by by_seq (of_types types es) ≡ of_types types es
sort_of_types [] es lo hi n =
    subst (λ l. sort_by by_seq l ≡ l) (select-true es) (sort_by-select (λ e. true) es lo hi n)
sort_of_types (t ∷ ts) es lo hi n = sort_by-select _ es lo hi n

pub Numbered-append :
    (es : List EventRow) (e : EventRow) (lo hi : ℕ)
    → Numbered lo es hi
    → e.seq ≡ hi
    → Numbered lo (es ++ e ∷ []) (suc hi)
Numbered-append [] e lo hi n h = (omega arith, omega arith)
Numbered-append (x ∷ es) e lo hi n h = (n.0, Numbered-append es e (suc lo) hi n.1 h)

Numbered-le : (es : List EventRow) (lo hi : ℕ) → Numbered lo es hi → lo ≤ hi
Numbered-le [] lo hi n = omega arith
Numbered-le (x ∷ es) lo hi n = omega (arith, Numbered-le es (suc lo) hi n.1)

abbrev pub IsFresh : String → List EventRow → Type 0
IsFresh id es = some_of (λ o. str_eq o.id id) es ≡ false

-- Neither constraint of the events table refuses the next number of a session.
pub clashes-Numbered :
    (e : EventRow) (es : List EventRow) (lo : ℕ)
    → IsFresh e.id es
    → Numbered lo (events_of e.session_id es) e.seq
    → clashes e es ≡ false
unfolding clashes
clashes-Numbered e [] lo fresh n = refl
clashes-Numbered e (x ∷ es) lo fresh n = elim (Bool-cases (str_eq x.session_id e.session_id)) [
  | inl same ↦
      let n' : Numbered lo (x ∷ events_of e.session_id es) e.seq = rw same at n in
      ground (
        arith,
        n'.0,
        Numbered-le (events_of e.session_id es) (suc lo) e.seq n'.1,
        clashes-Numbered e es (suc lo),
        n'.1,
      )
  | inr differs ↦
      let n' : Numbered lo (events_of e.session_id es) e.seq = rw differs at n in
      ground (arith, clashes-Numbered e es lo, n')
]

-- The row of one session after a change of many.
pub find-map :
    (id : String) (g : SessionRow → SessionRow) (rows : List SessionRow)
    → ((r : SessionRow) → (g r).id ≡ r.id)
    → find_session id (map g rows) ≡ on_row g (find_session id rows)
find-map id g [] keeps = refl
find-map id g (r ∷ rows) keeps = ground (arith, find-map id g rows keeps, keeps r)

abbrev pub or_row : Option SessionRow → SessionRow → String → Option SessionRow
or_row (some r) row id = some r
or_row none row id = if str_eq row.id id then some row else none

pub find-append :
    (id : String) (rows : List SessionRow) (row : SessionRow)
    → find_session id (rows ++ row ∷ []) ≡ or_row (find_session id rows) row id
find-append id [] row = refl
find-append id (r ∷ rows) row = ground (arith, find-append id rows row)

pub find-remove :
    (id j : String) (rows : List SessionRow)
    → find_session j (select (λ r. not (str_eq r.id id)) rows)
      ≡ (if str_eq id j then none else find_session j rows)
find-remove id j [] = ground arith
find-remove id j (r ∷ rows) =
    ground (arith, find-remove id j rows, str_eq_iff r.id id, str_eq_iff r.id j, str_eq_iff id j)

pub events_of-remove :
    (id j : String) (es : List EventRow)
    → events_of j (select (λ e. not (str_eq e.session_id id)) es)
      ≡ (if str_eq id j then [] else events_of j es)
events_of-remove id j [] = ground arith
events_of-remove id j (e ∷ es) = ground (
  arith,
  events_of-remove id j es,
  str_eq_iff e.session_id id,
  str_eq_iff e.session_id j,
  str_eq_iff id j,
)
