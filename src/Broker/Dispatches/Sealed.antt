-- ===== src/Broker/Dispatches/Sealed.antt =====
-- Stored payloads are the sealed requests of their operations.
use codex_a2a_gateway.Base.{ℕ, String, ◌≡◌, refl, some, All, All-insert, All-delete, arith}
use codex_a2a_gateway.Broker.Model.{Request, Plain, Payload, Ledger}
use codex_a2a_gateway.Broker.Setup.{Setup}
use codex_a2a_gateway.Broker.Snapshots.{Store, add_device, append_event}
use codex_a2a_gateway.Broker.Events.{drop_expired}
use codex_a2a_gateway.Broker.Calls.{empty}
use codex_a2a_gateway.Broker.Spec.{Write, Writes, nothing, then_write}

module _ (P : Setup) where
  -- The payload opens to the request that has its operation ID.
  abbrev pub IsSealedRequest : Payload P.Token → Type 0
  IsSealedRequest row =
      (req : Request) × (P.decrypt row.cipher ≡ some (Plain.request req))
      × (req.operation_id ≡ row.operation_id)

  pub record IsSealed (l : Store P) : Type 0 where
    pub payloads : All IsSealedRequest l.payloads

payloads-add_device :
    {Token : Type 0} (d : String) (l : Ledger Token) → (add_device d l).payloads ≡ l.payloads
unfolding add_device
payloads-add_device d l = ground arith

payloads-drop_expired :
    {Token : Type 0} (d : String) (now : ℕ) (l : Ledger Token)
    → (drop_expired d now l).payloads ≡ l.payloads
unfolding drop_expired
payloads-drop_expired d now l = ground arith

module _ {P : Setup} where
  Write-IsSealed : {l l' : Store P} → Write P l l' → IsSealed P l → IsSealed P l'
  unfolding append_event
  Write-IsSealed {l} (Write.device d) s = record {
    payloads = rw (payloads-add_device d l) s.payloads;
  }
  Write-IsSealed {l} (Write.retire d now) s = record {
    payloads = rw (payloads-drop_expired d now l) s.payloads;
  }
  Write-IsSealed {l} (Write.payload d req iv expires) s = record {
    payloads =
        All-insert (IsSealedRequest P) l.payloads _ s.payloads
          (req, P.decrypt-encrypt iv (Plain.request req), refl);
  }
  Write-IsSealed {l} (Write.drop_payloads p) s = record {
    payloads = All-delete (IsSealedRequest P) p l.payloads s.payloads;
  }
  Write-IsSealed {l} _ s = record { payloads = s.payloads }

  pub Writes-IsSealed : {l l' : Store P} → Writes P l l' → IsSealed P l → IsSealed P l'
  Writes-IsSealed nothing s = s
  Writes-IsSealed (then_write w x) s = Write-IsSealed x (Writes-IsSealed w s)

pub empty-IsSealed : (P : Setup) → IsSealed P (empty P)
empty-IsSealed P = record { payloads = tt }
