-- ===== src/Access/Booking.antt =====
-- What a committed transaction leaves of the session row that it has locked, and of the outbox.
use access_gateway.Prelude.{◌≡◌, true, some, Result, ok}
use mathlib.Core.Path.{subst}
use access_gateway.Access.Model.{Session, Store, ServiceError}
use access_gateway.Access.Life.{IsEdge, Advance, stays, follows}
use access_gateway.Access.Commands.{needs_command, has_command}
use access_gateway.Access.Ledger.{Entry}

-- Where the row `s` has gone.
pub record Landed (s : Session) (w' : Store) : Type 0 where
  pub row : Session
  pub is_row : w'.session ≡ some row
  pub advances : Advance s row
  pub commanded : needs_command row.status ≡ true → has_command row.id w'.outbox ≡ true

-- The same for a transaction from the store `v` that adds to the outbox at most.
pub record Outcome (v : Store) (s : Session) (w' : Store) : Type 0 where
  pub landed : Landed s w'
  pub entry : Entry v.outbox s landed.row w'.outbox

eq-store : (w w' : Store) → Path (Result ServiceError Store) (ok w) (ok w') → w ≡ w'
eq-store w w' h = cc

-- A transaction that ends in `w` with the row `t`.
pub land :
    (s t : Session) (w w' : Store)
    → Advance s t
    → w.session ≡ some t
    → (needs_command t.status ≡ true → has_command t.id w.outbox ≡ true)
    → Path (Result ServiceError Store) (ok w) (ok w')
    → Landed s w'
land s t w w' a i c h =
    subst (λ x. Landed s x) (eq-store w w' h)
      (record { row = t; is_row = i; advances = a; commanded = c })

pub commit :
    (s t : Session) (v w w' : Store)
    → Advance s t
    → w.session ≡ some t
    → (needs_command t.status ≡ true → has_command t.id w.outbox ≡ true)
    → Entry v.outbox s t w.outbox
    → Path (Result ServiceError Store) (ok w) (ok w')
    → Outcome v s w'
commit s t v w w' a i c e h =
    subst (λ x. Outcome v s x) (eq-store w w' h)
      (record { landed = record { row = t; is_row = i; advances = a; commanded = c }; entry = e })

-- One UPDATE.
pub one_edge : (s t : Session) → IsEdge s t → Advance s t
one_edge s t e = follows s t t e (stays t)
