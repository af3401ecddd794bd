-- ===== src/Ingest/Repository/Laws.antt =====
-- Documents that were set, and nonces that were claimed.
use attendence_system.Prelude.{
  ℕ, ◌≡◌, ◌≢◌, refl, Option, none, some, String, if◌then◌else◌, Bool-cases, inl, inr,
}
use attendence_system.Prelude.Text.{str_eq, str_eq_refl, str_eq_sound}
use attendence_system.Ingest.Types.{DeviceRegistration, repeat, conflict}
use attendence_system.Ingest.Repository.{
  Store, ReplayDoc, KeyHash, put, claim_of, replay_document, claim_replay,
}

pub put-same {ℓ} : {A : Type ℓ} (f : String → A) (n : String) (v : A) → put f n v n ≡ v
put-same f n v = rw (str_eq_refl n) refl

claim_of-again :
    (key : KeyHash) (name hash other : String) (fresh fresh' : ReplayDoc) (s : Store)
    (o : Option ReplayDoc)
    → s.replays name ≡ o
    → fresh.body_hash ≡ hash
    → (claim_of key o name hash fresh s).0 ≢ conflict
    → claim_of key
        ((claim_of key o name hash fresh s).1.replays name)
        name
        other
        fresh'
        (claim_of key o name hash fresh s).1
      ≡ (if str_eq hash other then repeat else conflict, (claim_of key o name hash fresh s).1)
claim_of-again key name hash other fresh fresh' s none e f h =
    rw (put-same s.replays name (some fresh), f) refl
claim_of-again key name hash other fresh fresh' s (some doc) e f h =
    elim (Bool-cases (str_eq doc.body_hash hash)) [
      | inl a ↦ rw (e, str_eq_sound _ _ a) refl
      | inr a ↦ absurd (h (rw (a) refl))
    ]

-- What a later claim of the same nonce is answered, whatever its time, if the first one was not a
-- conflict: a repeat for the same body and a conflict for another; and it writes nothing.
pub claim_replay-again :
    (key : KeyHash) (reg : DeviceRegistration) (nonce hash other : String) (now later : ℕ)
    (s : Store)
    → (claim_replay key reg nonce hash now s).0 ≢ conflict
    → claim_replay key reg nonce other later (claim_replay key reg nonce hash now s).1
      ≡ (if str_eq hash other then repeat else conflict, (claim_replay key reg nonce hash now s).1)
unfolding claim_replay
claim_replay-again key reg nonce hash other now later s h =
    claim_of-again key (key reg.device_id nonce) hash other (replay_document key reg hash now)
      (replay_document key reg other later) s (s.replays (key reg.device_id nonce)) refl refl h
