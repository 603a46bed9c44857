-- ===== src/Tailq.antt =====
-- The tail queues of include/queue.h, at the level of their pointers. An element is the number of
-- the `struct Env` that the link fields belong to, and a `struct type **` is the place that it
-- points to: the head's `tqh_first`, or some element's `tqe_next`.
pub mod Chain
pub mod Laws
pub mod Remove
use os_lab5_challenge.Base.{ℕ, Option, none, some, update}

pub data Link : Type 0 where
  first_of : Link
  next_of : ℕ → Link

-- `tqh_first` and `tqh_last` of the head, `tqe_next` and `tqe_prev` of each element.
pub record Tailq : Type 0 where
  pub first : Option ℕ
  pub last : Link
  pub next : ℕ → Option ℕ
  pub prev : ℕ → Link

-- `*p`
abbrev pub deref : Tailq → Link → Option ℕ
deref q first_of = q.first
deref q (next_of e) = q.next e

-- `*p = v`
abbrev pub assign : Tailq → Link → Option ℕ → Tailq
assign q first_of v = record q { first = v }
assign q (next_of e) v = record q { next = update q.next e v }

-- TAILQ_INIT. The fields of the elements stay as they are.
unfoldable pub init : Tailq → Tailq
init q = record q { first = none; last = first_of }

abbrev link_before : Option ℕ → ℕ → Tailq → Tailq
link_before (some f) e q = record q { prev = update q.prev f (next_of e) }
link_before none e q = record q { last = next_of e }

-- TAILQ_INSERT_HEAD
unfoldable pub insert_head : Tailq → ℕ → Tailq
insert_head q e =
    let q1 = link_before q.first e (record q { next = update q.next e q.first }) in
    record q1 { first = some e; prev = update q1.prev e first_of }

-- TAILQ_INSERT_TAIL
unfoldable pub insert_tail : Tailq → ℕ → Tailq
insert_tail q e =
    let q1 = record q { next = update q.next e none; prev = update q.prev e q.last } in
    record (assign q1 q1.last (some e)) { last = next_of e }

abbrev pub unlink_next : Option ℕ → ℕ → Tailq → Tailq
unlink_next (some y) e q = record q { prev = update q.prev y (q.prev e) }
unlink_next none e q = record q { last = q.prev e }

-- TAILQ_REMOVE
unfoldable pub remove : Tailq → ℕ → Tailq
remove q e = let q1 = unlink_next (q.next e) e q in assign q1 (q1.prev e) (q1.next e)
