-- ===== src/Client/Transport/Rounds.antt =====
-- Round 1 over the local transport: what each node's answer leaves in the transport.
use craftsec.Base.{
  ℕ, ◌<◌, ◌≡◌, ◌≢◌, refl, ◌∙◌, ◌⊎◌, inl, inr, Bool, true, false, Option, some, Text, length,
  get_elem?, set, length-set, get_elem?-set_self, get_elem?-set_ne, Bool-cases, arith,
  if◌then◌else◌,
}
use craftsec.Curve.{Curve}
use craftsec.Core.External.{RngCore, State, Json}
use craftsec.Core.Error.{CraftSecError, Result, ok, err, panic}
use craftsec.Core.Error.Loops.{Result-cases}
use craftsec.Core.Types.{AttestationRequest, AttestationResult, valid, invalid, Transaction}
use craftsec.Signing.Frost.{SigningNonce, commitment_of}
use craftsec.Node.Node.{
  CraftSecNode, NodeResponse, ProgramExecutor, is_frozen, get_key_share, process_request,
}
use craftsec.Node.Node.Response.{process_request_cases}
use craftsec.Client.Attest.{Round1Response}
use craftsec.Client.Transport.{LocalTransport, store_nonce, finish_round1, local_round1}

abbrev pub approving : ⦃j : Json⦄ → Result AttestationResult → Bool
approving (ok (valid tx)) = true
approving (ok (invalid reason)) = false
approving (err e) = false
approving panic = false

module _ ⦃c : Curve⦄ ⦃g : RngCore⦄ {E : Type 0} where
  -- The nodes stay, and so do the nonces of all nodes but `i`.
  pub record Keeps (i : ℕ) (t t' : LocalTransport E) : Type 0 where
    pub nodes : t'.nodes ≡ t.nodes
    pub size : length t'.nonces ≡ length t.nonces
    pub others : (k : ℕ) → k ≢ i → get_elem? t'.nonces k ≡ get_elem? t.nonces k

  module _ ⦃j : Json⦄ ⦃x : ProgramExecutor E⦄ where
    -- The program is not frozen at the node, and finds the request valid.
    abbrev pub approves : CraftSecNode E → AttestationRequest → Bool
    approves node request =
        if is_frozen node request.program_cid
        then false
        else approving (x.run node.registry request)

    -- The answer of a node that approves.
    pub record Approval (t : LocalTransport E) (i : ℕ) (node : CraftSecNode E)
        (request : AttestationRequest) : Type 0 where
      pub tx : Transaction
      pub nonce : SigningNonce
      pub after : LocalTransport E
      pub answer :
          local_round1 i request t
          ≡ (ok (record { result = valid tx; commitment = some (commitment_of nonce) }), after)
      pub keeps : Keeps i t after
      pub stored : get_elem? after.nonces i ≡ some (some nonce)
      pub judged : x.run node.registry request ≡ ok (valid tx)
      pub number : nonce.index ≡ (get_key_share node request.program_cid).index

    -- The answer of a node that does not.
    pub record Refusal (t : LocalTransport E) (i : ℕ) (request : AttestationRequest) : Type 0 where
      pub result : Result Round1Response
      pub after : LocalTransport E
      pub answer : local_round1 i request t ≡ (result, after)
      pub keeps : Keeps i t after
      pub declines :
          ((resp : Round1Response) × (reason : Text) × (result ≡ ok resp)
            × (resp.result ≡ invalid reason))
          ⊎ ((e : CraftSecError) × (result ≡ err e))

    Keeps-set :
        (t : LocalTransport E) (i : ℕ) (v : Option SigningNonce) (rng : State)
        → Keeps i t (record t { nonces = set t.nonces i v; os_rng = rng })
    Keeps-set t i v rng = record {
      nodes = refl;
      size = length-set t.nonces i v;
      others = λ k ne. get_elem?-set_ne t.nonces i k v ne;
    }

    local_round1-eq :
        (t : LocalTransport E) (i : ℕ) (node : CraftSecNode E) (request : AttestationRequest)
        (r : Result (NodeResponse × State))
        → get_elem? t.nodes i ≡ some node
        → process_request node request t.os_rng ≡ r
        → local_round1 i request t ≡ finish_round1 t i r
    unfolding local_round1
    local_round1-eq t i node request r h e = rw (h, e)

    store_nonce-eq :
        (t : LocalTransport E) (i : ℕ) (resp : NodeResponse) (rng : State)
        → i < length t.nonces
        → finish_round1 t i (ok (resp, rng)) ≡ (
          ok (record { result = resp.result; commitment = resp.commitment }),
          record t { nonces = set t.nonces i resp.nonce; os_rng = rng },
        )
    unfolding finish_round1 store_nonce
    store_nonce-eq t i resp rng h = ground arith

    -- A node in range that approves.
    approves-Approval :
        (t : LocalTransport E) (i : ℕ) (node : CraftSecNode E) (request : AttestationRequest)
        (tx : Transaction)
        → get_elem? t.nodes i ≡ some node
        → i < length t.nonces
        → is_frozen node request.program_cid ≡ false
        → x.run node.registry request ≡ ok (valid tx)
        → Approval t i node request
    approves-Approval t i node request tx h b f r =
        let (resp, rng, e, same, (nonce, stored, committed, number)) =
          (process_request_cases node request t.os_rng).2 (valid tx) f r in
        record {
          tx = tx;
          nonce = nonce;
          after = record t { nonces = set t.nonces i (some nonce); os_rng = rng };
          answer =
              local_round1-eq t i node request (ok (resp, rng)) h e
              ∙ store_nonce-eq t i resp rng b
              ∙ rw (same, committed, stored);
          keeps = Keeps-set t i (some nonce) rng;
          stored = get_elem?-set_self t.nonces i (some nonce) b;
          judged = r;
          number = number;
        }

    rejects-Refusal :
        (t : LocalTransport E) (i : ℕ) (node : CraftSecNode E) (request : AttestationRequest)
        (reason : Text)
        → get_elem? t.nodes i ≡ some node
        → i < length t.nonces
        → is_frozen node request.program_cid ≡ false
        → x.run node.registry request ≡ ok (invalid reason)
        → Refusal t i request
    rejects-Refusal t i node request reason h b f r =
        let (resp, rng, e, same, match) =
          (process_request_cases node request t.os_rng).2 (invalid reason) f r in
        record {
          result = ok (record { result = resp.result; commitment = resp.commitment });
          after = record t { nonces = set t.nonces i resp.nonce; os_rng = rng };
          answer =
              local_round1-eq t i node request (ok (resp, rng)) h e ∙ store_nonce-eq t i resp rng b;
          keeps = Keeps-set t i resp.nonce rng;
          declines = inl (_, reason, refl, same);
        }

    Keeps-refl : (i : ℕ) (t : LocalTransport E) → Keeps i t t
    Keeps-refl i t = record { nodes = refl; size = refl; others = λ k ne. refl }

    fails-Refusal :
        (t : LocalTransport E) (i : ℕ) (node : CraftSecNode E) (request : AttestationRequest)
        (e : CraftSecError)
        → get_elem? t.nodes i ≡ some node
        → process_request node request t.os_rng ≡ err e
        → Refusal t i request
    unfolding finish_round1
    fails-Refusal t i node request e h p = record {
      result = err e;
      after = t;
      answer = local_round1-eq t i node request (err e) h p;
      keeps = Keeps-refl i t;
      declines = inr (e, refl);
    }

    -- A node in range whose program does not panic approves, with its nonce stored, or declines.
    pub local_round1_cases :
        (t : LocalTransport E) (i : ℕ) (node : CraftSecNode E) (request : AttestationRequest)
        → get_elem? t.nodes i ≡ some node
        → i < length t.nonces
        → x.run node.registry request ≢ panic
        → ((approves node request ≡ true) × Approval t i node request)
          ⊎ ((approves node request ≡ false) × Refusal t i request)
    local_round1_cases t i node request h b np =
        elim (Bool-cases (is_frozen node request.program_cid)) [
          | inl f ↦ inr (
            rw f,
            fails-Refusal t i node request _ h ((process_request_cases node request t.os_rng).0 f),
          )
          | inr f ↦ elim (Result-cases (x.run node.registry request)) [
            | inl (valid tx, r) ↦ inl (rw (f, r), approves-Approval t i node request tx h b f r)
            | inl (invalid reason, r) ↦
                inr (rw (f, r), rejects-Refusal t i node request reason h b f r)
            | inr (inl (e, r)) ↦ inr (
              rw (f, r),
              fails-Refusal t i node request e h
                  ((process_request_cases node request t.os_rng).1 e f r),
            )
            | inr (inr r) ↦ absurd (np r)
          ]
        ]
