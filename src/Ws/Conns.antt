-- ===== src/Ws/Conns.antt =====
-- The set of connections of internal/adapter/ws/hub.go as a list without repetitions.
use event_driven_ns.Prelude.{
  suc, true, false, not, ◌||◌, ◌&&◌, List, [], ◌∷◌, ◌==◌, ◌≡◌, refl, arith, if◌then◌else◌, length,
  Bool-cases, inl, inr,
}
use event_driven_ns.Postgres.Table.{select_where, has_row}
use event_driven_ns.Ws.Hub.{Conn, is_member, insert, delete}

pub is_member-cons :
    (d c : Conn) (cs : List Conn) → is_member d (c ∷ cs) ≡ (c == d || is_member d cs)
unfolding is_member has_row
is_member-cons d c cs = refl

delete-cons :
    (c d : Conn) (cs : List Conn)
    → delete c (d ∷ cs) ≡ (if d == c then delete c cs else d ∷ delete c cs)
unfolding delete select_where
delete-cons c d cs = ground arith

pub is_member-insert :
    (d c : Conn) (cs : List Conn) → is_member d (insert c cs) ≡ (c == d || is_member d cs)
unfolding insert
is_member-insert d c cs = ground (arith, is_member-cons d c cs)

pub is_member-delete :
    (d c : Conn) (cs : List Conn) → is_member d (delete c cs) ≡ (not (c == d) && is_member d cs)
unfolding is_member delete has_row select_where
is_member-delete d c [] = ground arith
is_member-delete d c (e ∷ cs) = ground (arith, is_member-delete d c cs)

-- A list without repetitions.
abbrev pub IsUnique : List Conn → Type 0
IsUnique [] = Unit
IsUnique (c ∷ cs) = (is_member c cs ≡ false) × IsUnique cs

pub insert-IsUnique : (c : Conn) (cs : List Conn) → IsUnique cs → IsUnique (insert c cs)
unfolding insert
insert-IsUnique c cs u = elim (Bool-cases (is_member c cs)) [ inl e ↦ rw e u | inr e ↦ rw e (e, u) ]

pub delete-IsUnique : (c : Conn) (cs : List Conn) → IsUnique cs → IsUnique (delete c cs)
unfolding delete select_where
delete-IsUnique c [] u = tt
delete-IsUnique c (d ∷ cs) (n, u) = elim (Bool-cases (d == c)) [
  | inl e ↦ rw e (delete-IsUnique c cs u)
  | inr e ↦ rw e (ground (arith, is_member-delete d c cs), delete-IsUnique c cs u)
]

pub delete-absent : (c : Conn) (cs : List Conn) → is_member c cs ≡ false → delete c cs ≡ cs
unfolding delete select_where is_member has_row
delete-absent c [] n = refl
delete-absent c (d ∷ cs) n = ground (arith, delete-absent c cs)

no_member : (c : Conn) → ¬ (is_member c [] ≡ true)
unfolding is_member has_row
no_member c h = ground arith

pub length-delete :
    (c : Conn) (cs : List Conn)
    → IsUnique cs
    → is_member c cs ≡ true
    → suc (length (delete c cs)) ≡ length cs
length-delete c [] u h = absurd (no_member c h)
length-delete c (d ∷ cs) (n, u) h =
    ground
      (arith, is_member-cons c d cs, delete-cons c d cs, delete-absent c cs, length-delete c cs u)

pub length-insert :
    (c : Conn) (cs : List Conn)
    → length (insert c cs) ≡ (if is_member c cs then length cs else suc (length cs))
unfolding insert
length-insert c cs = ground arith
