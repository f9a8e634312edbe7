-- ===== src/Linear/Outbox/Timing.antt =====
-- How long `retry` of store.py lets a row wait, and how often `revive_failed` gives it another try.
use mathlib.Core.Path.{subst}
use hermes_fleet.Prelude.{
  min, ◌*◌, ℕ, zero, suc, ◌+◌, ◌^◌, ◌≤◌, ◌<◌, ◌≡◌, refl, sym, ap, ◌∙◌, Bool, true, false, ◌&&◌,
  Option, none, some, List, [], ◌∷◌, if◌then◌else◌, by_test, arith, list_eq, nat_eq, ◌==◌, leb→le,
  ltb→lt, &&-left, &&-right,
}
use hermes_fleet.Prelude.Text.{Text, codes}
use hermes_fleet.Prelude.Json.{
  Json, number, string, lookup, Fields, as_int, get_field, get_field-set_field,
}
use hermes_fleet.Linear.Outbox.Payload.{is_null}
use hermes_fleet.Linear.Outbox.Table.{failed, Row, Store, hold_legacy}
use hermes_fleet.Linear.Outbox.Operations.{
  find_row, update_row, updated, noted, read_time, retry_since, retry_read, row_admitted,
  if_admitted, timed_out, given_up, backed_off, gives_up, give_up, back_off, delay, retry,
  revive_limit, count_at, below, rested, may_revive, failed_unsure, in_time, worth_another, revived,
  count_or_zero,
}

power_pos : (n : ℕ) → 1 ≤ 2 ^ n
power_pos zero = omega arith
power_pos (suc n) = omega (arith, power_pos n)

delay-bounds : (row : Row) → (60 ≤ delay row) × (delay row ≤ 3600)
delay-bounds row = (omega (arith, power_pos row.attempts), omega arith)

pub find_row-update_row :
    (key : Text) (f : Row → Row) (t : List Row) (r : Row)
    → find_row key t ≡ some r
    → ((q : Row) → (f q).id ≡ q.id)
    → find_row key (update_row key f t) ≡ some (f r)
find_row-update_row key f [] r h e = cc
find_row-update_row key f (q ∷ qs) r h e =
    by_test
      (λ b.
        (q.id == key) ≡ b
        → (if b then some q else find_row key qs) ≡ some r
        → find_row key (if b then f q ∷ qs else q ∷ update_row key f qs) ≡ some (f r))
      (q.id == key)
      (λ t is h.
        let here = subst (λ i. (i == key) ≡ true) (sym (e q)) is in
        let same : q ≡ r = cc in rw (here, ap f same))
      (λ t is h.
        let later = find_row-update_row key f qs r h e in
        subst (λ b. (if b then some q else find_row key (update_row key f qs)) ≡ some (f r))
          (sym is) later)
      refl h

if_admitted-find_row :
    (key : Text) (f : Row → Row) (s : Store) (r : Row)
    → find_row key (hold_legacy s).outbox ≡ some r
    → row_admitted (hold_legacy s) key ≡ true
    → ((q : Row) → (f q).id ≡ q.id)
    → find_row key (if_admitted key (updated key f) s).outbox ≡ some (f r)
if_admitted-find_row key f s r found free e =
    let h = hold_legacy s in
    subst (λ b. find_row key (if b then updated key f h else h).outbox ≡ some (f r)) (sym free)
      (find_row-update_row key f h.outbox r found e)

-- What a retry does to the row `r` of the table, and what it returns
pub data Retried (attempts now since : ℕ) (r q : Row) : Bool → Type 0 where
  is_given_up :
      since + 86400 ≤ now
      → q.state ≡ failed
      → get_field (codes "failure_kind") q.payload ≡ string (codes "timeout")
      → Retried attempts now since r q true
  waits_longer :
      now < since + 86400
      → q ≡ record r { attempts = attempts + 1; next_at = q.next_at }
      → q.next_at ≡ now + min (60 * 2 ^ attempts) 3600
      → now + 60 ≤ q.next_at
      → Retried attempts now since r q false

timed_out-kind :
    (error : Option Text) (p : Fields)
    → get_field (codes "failure_kind") (timed_out error p) ≡ string (codes "timeout")
timed_out-kind error p =
    get_field-set_field (codes "failure_kind") (codes "failure_kind") _ (noted error p)

-- A retry of a row that is there, may be written and has a time of its enqueueing counts the attempt. A day after
-- that time at the earliest it gives the row up as timed out and says so; before, it changes nothing else than to
-- let the row wait a minute that doubles with each attempt, an hour at most.
pub retry_lem :
    (row : Row) (now since : ℕ) (error : Option Text) (s : Store) (r : Row)
    → find_row row.id (hold_legacy s).outbox ≡ some r
    → row_admitted (hold_legacy s) row.id ≡ true
    → lookup (codes "enqueued_at") row.payload ≡ some (number since)
    → (out : Bool × Store) × (q : Row) × (retry row now error s ≡ some out)
      × (find_row row.id out.1.outbox ≡ some q)
      × (q.attempts ≡ row.attempts + 1)
      × Retried row.attempts now since r q out.0
unfolding retry read_time
retry_lem row now since error s r found free enqueued =
    let Told : Bool × Store → Type 0 = λ out.
      (q : Row) × (find_row row.id out.1.outbox ≡ some q)
      × (q.attempts ≡ row.attempts + 1)
      × Retried row.attempts now since r q out.0 in
    let told : Told (retry_since since row now error s) =
      by_test
        (λ b. Told (
          if b
          then (row_admitted (hold_legacy s) row.id, give_up row error s)
          else (false, back_off row now s)))
        (gives_up since now)
        (λ t. (
          given_up row.attempts error r,
          if_admitted-find_row row.id (given_up row.attempts error) s r found free (λ q. refl),
          refl,
          subst (Retried row.attempts now since r (given_up row.attempts error r)) (sym free)
              (is_given_up (leb→le (since + 86400) now t) refl (timed_out-kind error r.payload)),
        ))
        (λ t. (
          backed_off row.attempts (now + delay row) r,
          if_admitted-find_row row.id (backed_off row.attempts (now + delay row)) s r found free
              (λ q. refl),
          refl,
          waits_longer (ground (arith, t)) refl refl (omega (arith, (delay-bounds row).0)),
        )) in
    (
      retry_since since row now error s,
      told.0,
      ap
          (λ (o : Option Json).
            retry_read (elim o [ some j ↦ read_time j | none ↦ some now ]) row now error s)
          enqueued,
      told.1,
      told.2,
      told.3,
    )

noted-revived_at :
    (error : Option Text) (p : Fields)
    → get_field (codes "revived_at") (timed_out error p) ≡ get_field (codes "revived_at") p
noted-revived_at none p = get_field-set_field (codes "failure_kind") (codes "revived_at") _ p
noted-revived_at (some e) p =
    get_field-set_field (codes "failure_kind") (codes "revived_at") _ _
    ∙ get_field-set_field (codes "last_error") (codes "revived_at") _ p

noted-revivals :
    (error : Option Text) (p : Fields)
    → get_field (codes "revivals") (timed_out error p) ≡ get_field (codes "revivals") p
noted-revivals none p = get_field-set_field (codes "failure_kind") (codes "revivals") _ p
noted-revivals (some e) p =
    get_field-set_field (codes "failure_kind") (codes "revivals") _ _
    ∙ get_field-set_field (codes "last_error") (codes "revivals") _ p

revived_at_lem :
    (now : ℕ) (error : Option Text) (r : Row)
    → get_field (codes "revived_at") (timed_out error (revived now r).payload) ≡ number now
revived_at_lem now error r =
    noted-revived_at error (revived now r).payload
    ∙ get_field-set_field (codes "revived_at") (codes "revived_at") (number now) _

revivals_lem :
    (now : ℕ) (error : Option Text) (r : Row)
    → get_field (codes "revivals") (timed_out error (revived now r).payload)
      ≡ number (count_or_zero (count_at (codes "revivals") r.payload) + 1)
revivals_lem now error r =
    noted-revivals error (revived now r).payload
    ∙ get_field-set_field (codes "revived_at") (codes "revivals") (number now) _
    ∙ get_field-set_field (codes "revivals") (codes "revivals") _ r.payload

-- A row that was given another try and failed again is given the next an hour later at the earliest, and
-- only if it has had fewer than three.
pub revived-again :
    (now later attempts : ℕ) (error : Option Text) (t : List Row) (r : Row)
    → may_revive later t (given_up attempts error (revived now r)) ≡ true
    → (now + 3600 ≤ later) × (count_or_zero (count_at (codes "revivals") r.payload) + 1 < 3)
revived-again now later attempts error t r h =
    let q = given_up attempts error (revived now r) in
    let timely =
      &&-right (failed_unsure q) (in_time later q)
        (&&-left (failed_unsure q && in_time later q) (worth_another t q) h) in
    let few = &&-left (below (count_at (codes "revivals") q.payload) revive_limit) _ timely in
    let rest = &&-right (below (count_at (codes "revivals") q.payload) revive_limit) _ timely in
    let n = count_or_zero (count_at (codes "revivals") r.payload) in
    let few' =
      subst (λ (j : Json). below (if is_null j then some 0 else as_int j) revive_limit ≡ true)
        (revivals_lem now error r) few in
    let rest' = subst (λ j. rested j later ≡ true) (revived_at_lem now error r) rest in
    (leb→le (now + 3600) later rest', ltb→lt (n + 1) 3 few')
