-- ===== src/Workflow/Lifecycle.antt =====
-- Histories of calls of app/services/ticket_service.py and app/services/comment_service.py: the
-- well-formed databases, and what becomes of a ticket that has left OPEN.
use ticketflow.Base.{
  ℕ, ◌≡◌, ◌≢◌, refl, sym, ◌∙◌, inl, inr, List, [], ◌∷◌, arith, Elem, Distinct, Distinct-filter,
  Distinct-map, Distinct-unique, subst, overwrite_self, overwrite_others, delete_key_iff, ◌==◌,
  nat_eq, nat_beq_iff, Bool-cases, if◌then◌else◌, ℕ_discrete,
}
use ticketflow.Models.{Ticket, Comment, Db, opened}
use ticketflow.Tickets.Effects.{ticket_key}
use ticketflow.Tickets.Mutation.{save, delete_row}
use ticketflow.Workflow.{Call, call, call_all}
use ticketflow.Workflow.Steps.{Later, Step, stays, opens, evolves, removes, says}
use ticketflow.Workflow.Refinement.{call-Step}

abbrev pub comment_key : Comment → ℕ
comment_key c = c.id

abbrev Stores : ℕ → List Ticket → Type 0
Stores k ts = (t : Ticket) × Elem t ts × (t.id ≡ k)

-- Unique identifiers, and every comment belongs to a stored ticket.
pub record IsValid (db : Db) : Type 0 where
  pub tickets : Distinct ticket_key db.tickets
  pub comments : Distinct comment_key db.comments
  pub owned : (c : Comment) → Elem c db.comments → Stores c.ticket_id db.tickets

pub overwrite_key :
    {A : Type 0} (key : A → ℕ) (a x : A) → key (if key x == key a then a else x) ≡ key x
overwrite_key key a x = elim (Bool-cases (key x == key a)) [
  | inl e ↦ rw e (sym ((nat_beq_iff (key x) (key a)).0 e))
  | inr e ↦ rw e refl
]

-- A saved ticket is found under its key, and so is every other.
saved-Stores :
    (t t' : Ticket) (db : Db) (k : ℕ)
    → Elem t db.tickets
    → t'.id ≡ t.id
    → Stores k db.tickets
    → Stores k (save t' db).tickets
unfolding save
saved-Stores t t' db k m same (x, mx, e) = elim (ℕ_discrete x.id t'.id) [
  | yes p ↦ (t', overwrite_self ticket_key t' t db.tickets m (sym same), sym p ∙ e)
  | no n ↦ (x, (overwrite_others ticket_key t' x db.tickets n).1 mx, e)
]

pub Step-IsValid : {db db' : Db} → Step db db' → IsValid db → IsValid db'
unfolding save delete_row
Step-IsValid stays v = v
Step-IsValid (opens t fresh _) v = record {
  tickets = (fresh, v.tickets);
  comments = v.comments;
  owned = λ c m. let (x, mx, e) = v.owned c m in (x, inr mx, e);
}
Step-IsValid {db} (evolves t t' m later _) v = record {
  tickets = Distinct-map ticket_key _ (overwrite_key ticket_key t') db.tickets v.tickets;
  comments = v.comments;
  owned = λ c mc. saved-Stores t t' db c.ticket_id m later.id (v.owned c mc);
}
Step-IsValid {db} (removes t m _) v = record {
  tickets = Distinct-filter ticket_key _ db.tickets v.tickets;
  comments = Distinct-filter comment_key _ db.comments v.comments;
  owned = λ c mc.
      let (mc', other) =
        (delete_key_iff (λ (row : Comment). row.ticket_id) t.id c db.comments).0 mc in
      let (x, mx, e) = v.owned c mc' in
      (x, (delete_key_iff ticket_key t.id x db.tickets).1 (mx, λ p. other (sym e ∙ p)), e);
}
Step-IsValid (says c t fresh m e) v = record {
  tickets = v.tickets;
  comments = (fresh, v.comments);
  owned = λ d md. elim md [ inl p ↦ rw p (t, m, e) | inr md' ↦ v.owned d md' ];
}

-- The identifiers of tickets and of comments stay unique, and every comment's ticket is stored, after
-- any sequence of calls of the services, whatever each is called with and whether it raises.
pub call_all-IsValid : (cs : List Call) (db : Db) → IsValid db → IsValid (call_all cs db)
unfolding call_all
call_all-IsValid [] db v = v
call_all-IsValid (c ∷ cs) db v = call_all-IsValid cs (call c db) (Step-IsValid (call-Step c db) v)

refl-Later : (t : Ticket) → Later t t
refl-Later t = record {
  id = refl;
  customer_id = refl;
  created_at = refl;
  forward = omega arith;
  content = λ _. (refl, refl, refl, refl);
}

started : (t t' : Ticket) → Later t t' → t.status ≢ opened → t'.status ≢ opened
started t t' h n e = let f = h.forward in let g = n in grind arith

trans-Later : {t t' t'' : Ticket} → t.status ≢ opened → Later t t' → Later t' t'' → Later t t''
trans-Later {t} {t'} n h k =
    let (a, b, c, d) = h.content n in
    let (a', b', c', d') = k.content (started t t' h n) in
    let f = h.forward in
    let g = k.forward in
    record {
      id = k.id ∙ h.id;
      customer_id = k.customer_id ∙ h.customer_id;
      created_at = k.created_at ∙ h.created_at;
      forward = omega arith;
      content = λ _. (a' ∙ a, b' ∙ b, c' ∙ c, d' ∙ d);
    }

-- What became of a ticket that has left OPEN: it is stored, further on or as it was, and so are all
-- of its comments.
pub record IsKept (t : Ticket) (db db' : Db) : Type 0 where
  pub now : Ticket
  pub stored : Elem now db'.tickets
  pub later : Later t now
  pub comments : (c : Comment) → Elem c db.comments → c.ticket_id ≡ t.id → Elem c db'.comments

Step-IsKept :
    {db db' : Db} (t : Ticket)
    → Step db db'
    → IsValid db
    → Elem t db.tickets
    → t.status ≢ opened
    → IsKept t db db'
unfolding save delete_row
Step-IsKept t stays v m n = record {
  now = t;
  stored = m;
  later = refl-Later t;
  comments = λ c mc _. mc;
}
Step-IsKept t (opens u fresh _) v m n = record {
  now = t;
  stored = inr m;
  later = refl-Later t;
  comments = λ c mc _. mc;
}
Step-IsKept {db} t (evolves u u' mu later _) v m n = elim (ℕ_discrete t.id u'.id) [
  | yes p ↦
      let same : u ≡ t =
        Distinct-unique ticket_key db.tickets u t v.tickets mu m (sym later.id ∙ sym p) in
      record {
        now = u';
        stored = overwrite_self ticket_key u' u db.tickets mu (sym later.id);
        later = subst (λ x. Later x u') same later;
        comments = λ c mc _. mc;
      }
  | no p ↦ record {
    now = t;
    stored = (overwrite_others ticket_key u' t db.tickets p).1 m;
    later = refl-Later t;
    comments = λ c mc _. mc;
  }
]
Step-IsKept {db} t (removes u mu open_now) v m n =
    let other : t.id ≢ u.id = λ p. n (
      subst (λ (x : Ticket). x.status ≡ opened)
        (Distinct-unique ticket_key db.tickets u t v.tickets mu m (sym p)) open_now) in
    record {
      now = t;
      stored = (delete_key_iff ticket_key u.id t db.tickets).1 (m, other);
      later = refl-Later t;
      comments = λ c mc e.
          (delete_key_iff (λ (row : Comment). row.ticket_id) u.id c db.comments).1
            (mc, λ p. other (sym e ∙ p));
    }
Step-IsKept t (says c u _ _ _) v m n = record {
  now = t;
  stored = m;
  later = refl-Later t;
  comments = λ d md _. inr md;
}

-- In a database with unique identifiers whose comments belong to stored tickets: once a ticket has
-- left OPEN, no sequence of calls deletes it or any of its comments, changes its owner, title,
-- description, category or priority, or moves it back in the lifecycle.
pub call_all-IsKept :
    (cs : List Call) (db : Db) (t : Ticket)
    → IsValid db
    → Elem t db.tickets
    → t.status ≢ opened
    → IsKept t db (call_all cs db)
unfolding call_all
call_all-IsKept [] db t v m n = record {
  now = t;
  stored = m;
  later = refl-Later t;
  comments = λ c mc _. mc;
}
call_all-IsKept (c ∷ cs) db t v m n =
    let s = call-Step c db in
    let first = Step-IsKept t s v m n in
    let rest =
      call_all-IsKept cs (call c db) first.now (Step-IsValid s v) first.stored
        (started t first.now first.later n) in
    record {
      now = rest.now;
      stored = rest.stored;
      later = trans-Later n first.later rest.later;
      comments = λ d md e. rest.comments d (first.comments d md e) (e ∙ sym first.later.id);
    }
