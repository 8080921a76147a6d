-- ===== src/Reliablebc/Acceptor.antt =====
-- The acceptor of reliable broadcast (reliablebc/relbcacceptor.go). A map from senders to their
-- messages is the list of the messages, each under its sender's id. FNV-1a is a parameter.
use goxos.Base.{
  none, some, Option, ℕ, ◌+◌, ◌*◌, ◌/◌, ◌%◌, Bool, true, false, not, ◌&&◌, ◌||◌, List, [], ◌∷◌,
  ◌++◌, ◌==◌, ltb, length, if◌then◌else◌, sub_uint, uint_mod,
}
use goxos.Base.Outcome.{Outcome, done, panic, ◌>>=◌}
use goxos.Grp.Id.{GrpId, id_eq}
use goxos.Paxos.Value.{Value, Request, app, noop, reconfig, zero_value}
use goxos.Reliablebc.Auth.{Bytes, Crypto, AuthManager, check_mac, generate_mac, hash_to_bytes}
use goxos.Reliablebc.Storage.{Storage, new_storage, get, put, is_valid}
use goxos.Reliablebc.Learner.{Commit, ValResp, commit_count, has_commit}

-- `Publish`, `Prepare`; a `CommitA` has the fields of a `Commit`.
pub record Publish : Type 0 where
  pub id : GrpId
  pub rnd : ℕ
  pub val : Value
  pub hmac : Bytes

pub record Prepare : Type 0 where
  pub id : GrpId
  pub rnd : ℕ
  pub hash : ℕ
  pub hmac : Bytes

-- `AcceptorRound`
pub record AcceptorRound : Type 0 where
  pub rnd_id : ℕ
  pub prepares : List Prepare
  pub commits : List Commit
  pub sent_prepare : Bool
  pub sent_commit : Bool
  pub value : Value

abbrev pub new_acceptor_round : AcceptorRound
new_acceptor_round = record {
  rnd_id = 0;
  prepares = [];
  commits = [];
  sent_prepare = false;
  sent_commit = false;
  value = zero_value;
}

-- `type RelAcceptor struct`
pub record RelAcceptor : Type 0 where
  pub id : GrpId
  pub n_acceptors : ℕ
  pub n_faulty : ℕ
  pub rounds : Storage AcceptorRound
  pub actors : List GrpId
  pub auth_mgr : AuthManager

-- `NewRelAcceptor`
unfoldable pub new_rel_acceptor : GrpId → ℕ → List GrpId → ℕ → AuthManager → RelAcceptor
unfolding new_storage
new_rel_acceptor id n_acceptors actors alpha auth_mgr = record {
  id = id;
  n_acceptors = n_acceptors;
  n_faulty = sub_uint n_acceptors 1 / 3;
  rounds = new_storage new_acceptor_round (((alpha + 10) * 3) % uint_mod);
  actors = actors;
  auth_mgr = auth_mgr;
}

-- What is sent to one node: a prepare, a commit to an acceptor or to a learner, a value.
pub data Output : Type 0 where
  send_prepare_to : GrpId → Prepare → Output
  send_commit_a_to : GrpId → Commit → Output
  send_commit_to : GrpId → Commit → Output
  send_val_resp : GrpId → ValResp → Output

-- The bytes of the requests, and `Hash` of a value (paxos/value.go).
unfoldable pub request_bytes : List Request → Bytes
request_bytes [] = []
request_bytes (r ∷ rs) = r.val ++ request_bytes rs

abbrev pub hash_of : (Bytes → ℕ) → Value → Outcome ℕ
hash_of fnv val = elim val.vt [
  | app ↦ done (fnv (request_bytes val.cr))
  | noop ↦ panic
  | reconfig ↦ panic
]

-- A round without messages is started anew.
unfoldable pub start_acceptor_round : AcceptorRound → ℕ → AcceptorRound
start_acceptor_round r rnd =
    if length r.prepares == 0 && length r.commits == 0
    then record r {
      rnd_id = rnd;
      prepares = [];
      commits = [];
      sent_prepare = false;
      sent_commit = false;
    }
    else r

-- `_, ok := rnd.Prepares[msg.ID]`, and `preparecount[hash]`.
unfoldable pub has_prepare : List Prepare → GrpId → Bool
has_prepare [] id = false
has_prepare (p ∷ ps) id = id_eq p.id id || has_prepare ps id

unfoldable pub prepare_count : ℕ → List Prepare → ℕ
prepare_count hash [] = 0
prepare_count hash (p ∷ ps) =
    let rest = prepare_count hash ps in if p.hash == hash then rest + 1 else rest

unfoldable pub prepares_above : ℕ → List Prepare → List Prepare → Bool
unfolding prepare_count
prepares_above bound all [] = false
prepares_above bound all (p ∷ ps) =
    ltb bound (prepare_count p.hash all) || prepares_above bound all ps

unfoldable pub commits_above : ℕ → List Commit → List Commit → Bool
unfolding commit_count
commits_above bound all [] = false
commits_above bound all (c ∷ cs) = ltb bound (commit_count c.hash all) || commits_above bound all cs

-- `comparePrepares`, `compareCommits`
unfoldable pub compare_prepares : ℕ → List Prepare → Bool
unfolding prepares_above
compare_prepares n_faulty prepares = prepares_above ((2 * n_faulty) % uint_mod) prepares prepares

unfoldable pub compare_acceptor_commits : ℕ → List Commit → Bool
unfolding commits_above
compare_acceptor_commits n_faulty commits = commits_above n_faulty commits commits

-- The prepare that is created unless one was sent, and the commit.
abbrev pub missing_prepare : RelAcceptor → AcceptorRound → ℕ → ℕ → Option Prepare
missing_prepare a r rnd hash =
    if r.sent_prepare then none else some (record { id = a.id; rnd = rnd; hash = hash; hmac = [] })

abbrev pub create_commit : RelAcceptor → ℕ → ℕ → Commit
create_commit a rnd hash = record { id = a.id; rnd = rnd; hash = hash; hmac = [] }

-- What a prepare does to a round that is started, and to a round.
unfoldable pub prepare_to_started :
    RelAcceptor → AcceptorRound → Prepare → AcceptorRound × (Option Prepare × Option Commit)
unfolding has_prepare compare_prepares
prepare_to_started a r msg =
    let r' = record r { prepares = msg ∷ r.prepares } in
    if r.sent_commit
    then (r, (none, none))
    else if has_prepare r.prepares msg.id
    then (r, (none, none))
    else if compare_prepares a.n_faulty r'.prepares
    then (r', (missing_prepare a r' msg.rnd msg.hash, some (create_commit a msg.rnd msg.hash)))
    else (r', (none, none))

unfoldable pub prepare_to_round :
    RelAcceptor → AcceptorRound → Prepare → AcceptorRound × (Option Prepare × Option Commit)
unfolding start_acceptor_round prepare_to_started
prepare_to_round a old msg = prepare_to_started a (start_acceptor_round old msg.rnd) msg

-- What a commit does to a round.
unfoldable pub commit_to_acceptor_round :
    RelAcceptor → AcceptorRound → Commit → AcceptorRound × (Option Prepare × Option Commit)
unfolding start_acceptor_round has_commit compare_acceptor_commits
commit_to_acceptor_round a old msg =
    let r = start_acceptor_round old msg.rnd in
    let r' = record r { commits = msg ∷ r.commits } in
    if r.sent_commit
    then (r, (none, none))
    else if has_commit r.commits msg.id
    then (r, (none, none))
    else if compare_acceptor_commits a.n_faulty r'.commits
    then (r', (missing_prepare a r' msg.rnd msg.hash, some (create_commit a msg.rnd msg.hash)))
    else (r', (none, none))

abbrev pub put_round : RelAcceptor → Storage AcceptorRound → ℕ → AcceptorRound → RelAcceptor
put_round a s rnd r = record a { rounds = put new_acceptor_round s rnd r }

module _ (c : Crypto) (fnv : Bytes → ℕ) where
  -- `handlePublish`, with `createPrepare`
  unfoldable pub handle_publish : RelAcceptor → Publish → Outcome (RelAcceptor × Option Prepare)
  unfolding check_mac is_valid get put request_bytes
  handle_publish a msg = hash_of fnv msg.val >>= λ hash.
      if not (check_mac c a.auth_mgr msg.id msg.hmac (hash_to_bytes hash) msg.rnd)
      then done (a, none)
      else if not (is_valid new_acceptor_round a.rounds msg.rnd)
      then done (a, none)
      else get new_acceptor_round a.rounds msg.rnd >>= λ sr. done (
        put_round a sr.0 msg.rnd (record sr.1 { rnd_id = msg.rnd; value = msg.val }),
        missing_prepare a sr.1 msg.rnd hash,
      )

  -- `handlePrepare`
  unfoldable pub handle_prepare :
      RelAcceptor → Prepare → Outcome (RelAcceptor × (Option Prepare × Option Commit))
  unfolding check_mac is_valid get put prepare_to_round
  handle_prepare a msg =
      if not (check_mac c a.auth_mgr msg.id msg.hmac (hash_to_bytes msg.hash) msg.rnd)
      then done (a, (none, none))
      else if not (is_valid new_acceptor_round a.rounds msg.rnd)
      then done (a, (none, none))
      else get new_acceptor_round a.rounds msg.rnd >>= λ sr.
          let (r, made) = prepare_to_round a sr.1 msg in done (put_round a sr.0 msg.rnd r, made)

  -- `handleCommit`
  unfoldable pub handle_acceptor_commit :
      RelAcceptor → Commit → Outcome (RelAcceptor × (Option Prepare × Option Commit))
  unfolding check_mac is_valid get put commit_to_acceptor_round
  handle_acceptor_commit a msg =
      if not (check_mac c a.auth_mgr msg.id msg.hmac (hash_to_bytes msg.hash) msg.rnd)
      then done (a, (none, none))
      else if not (is_valid new_acceptor_round a.rounds msg.rnd)
      then done (a, (none, none))
      else get new_acceptor_round a.rounds msg.rnd >>= λ sr.
          let (r, made) = commit_to_acceptor_round a sr.1 msg in
          done (put_round a sr.0 msg.rnd r, made)

  -- `sendPrepare` for one node: what the own handler returns is dropped.
  unfoldable pub send_prepare_one :
      RelAcceptor → Prepare → GrpId → Outcome (RelAcceptor × List Output)
  unfolding handle_prepare generate_mac
  send_prepare_one a msg id =
      if id_eq id a.id
      then (handle_prepare a msg >>= λ r. done (r.0, []))
      else done (
        a,
        send_prepare_to id (record msg {
          id = a.id;
          hmac = generate_mac c a.auth_mgr id (hash_to_bytes msg.hash) msg.rnd;
        })
            ∷ [],
      )

  -- Its loop.
  unfoldable pub send_prepares :
      RelAcceptor → Prepare → List GrpId → Outcome (RelAcceptor × List Output)
  unfolding send_prepare_one
  send_prepares a msg [] = done (a, [])
  send_prepares a msg (id ∷ ids) = send_prepare_one a msg id >>= λ r.
      send_prepares r.0 msg ids >>= λ r'. done (r'.0, r.1 ++ r'.1)

  -- `sendPrepare`
  unfoldable pub send_prepare : RelAcceptor → Prepare → Outcome (RelAcceptor × List Output)
  unfolding send_prepares get put
  send_prepare a msg = send_prepares a msg a.actors >>= λ r.
      get new_acceptor_round r.0.rounds msg.rnd >>= λ sr.
      done (put_round r.0 sr.0 msg.rnd (record sr.1 { sent_prepare = true }), r.1)

  -- `sendCommit` for one node, with the code for it.
  unfoldable pub send_commit_one :
      RelAcceptor → Commit → GrpId → Outcome (RelAcceptor × List Output)
  unfolding handle_acceptor_commit generate_mac
  send_commit_one a msg id =
      let coded = record msg {
        id = a.id;
        hmac = generate_mac c a.auth_mgr id (hash_to_bytes msg.hash) msg.rnd;
      } in
      if id_eq id a.id
      then (handle_acceptor_commit a coded >>= λ r. done (r.0, send_commit_to id coded ∷ []))
      else done (a, send_commit_a_to id coded ∷ send_commit_to id coded ∷ [])

  -- Its loop.
  unfoldable pub send_commits :
      RelAcceptor → Commit → List GrpId → Outcome (RelAcceptor × List Output)
  unfolding send_commit_one
  send_commits a msg [] = done (a, [])
  send_commits a msg (id ∷ ids) =
      send_commit_one a msg id >>= λ r. send_commits r.0 msg ids >>= λ r'. done (r'.0, r.1 ++ r'.1)

  -- `sendCommit`
  unfoldable pub send_commit : RelAcceptor → Commit → Outcome (RelAcceptor × List Output)
  unfolding send_commits get put
  send_commit a msg = send_commits a msg a.actors >>= λ r.
      get new_acceptor_round r.0.rounds msg.rnd >>= λ sr.
      done (put_round r.0 sr.0 msg.rnd (record sr.1 { sent_commit = true }), r.1)

  -- `sendVal`, with `getRndValue`
  unfoldable pub send_val : RelAcceptor → ℕ → Outcome (RelAcceptor × List Output)
  unfolding is_valid get
  send_val a rnd =
      if not (is_valid new_acceptor_round a.rounds rnd)
      then done (a, send_val_resp a.id (record { rnd = rnd; val = zero_value }) ∷ [])
      else get new_acceptor_round a.rounds rnd >>= λ sr. done (
        record a { rounds = sr.0 },
        send_val_resp a.id (record { rnd = rnd; val = sr.1.value }) ∷ [],
      )
