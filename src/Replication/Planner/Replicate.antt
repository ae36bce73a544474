-- ===== src/Replication/Planner/Replicate.antt =====
-- Step.doReplication: the calls on the two endpoints, in order, and the error that it returns.
use Prim.Native.String.{String}
use zrepl.Prelude.{
  if◌then◌else◌, ◌≡◌, ◌↔◌, ◌⊎◌, refl, subst, Bool, true, not, Option, none, some, List, [], ◌∷◌,
  arith,
}
use zrepl.Replication.Version.{FilesystemVersion}
use zrepl.Replication.Planner.{Step}

-- pdu.SendReq; the replication config is passed on unread, as a value of type `Config`.
pub record SendReq (Config : Type 0) : Type 0 where
  pub filesystem : String
  pub from : Option FilesystemVersion
  pub to : Option FilesystemVersion
  pub resume_token : String
  pub replication_config : Config

-- pdu.ReceiveReq
pub record ReceiveReq (Config : Type 0) : Type 0 where
  pub filesystem : String
  pub to : Option FilesystemVersion
  pub clear_resume_token : Bool
  pub replication_config : Config

-- The answer to Send: the result may be nil, and so may the stream. A stream is a value of type
-- `Stream`, since it is only passed on.
pub record Sent (Stream : Type 0) : Type 0 where
  pub used_resume_token : Bool
  pub stream : Option Stream

pub data SendAnswer (Stream : Type 0) : Type 0 where
  send_failed nil_result : SendAnswer Stream
  sent : Sent Stream → SendAnswer Stream

pub data ReplicationError : Type 0 where
  send_request_failed nil_send_result no_stream receive_failed completed_failed : ReplicationError

pub data Call (Config Stream : Type 0) : Type 0 where
  send : SendReq Config → Call Config Stream
  receive : ReceiveReq Config → Stream → Call Config Stream
  close_stream : Stream → Call Config Stream
  send_completed : SendReq Config → Call Config Stream

-- The calls so far and the error that is returned, if any.
pub record Run (Config Stream : Type 0) : Type 0 where
  pub calls : List (Call Config Stream)
  pub error : Option ReplicationError

-- The answers of the two endpoints.
pub record Endpoints (Config Stream : Type 0) : Type 0 where
  pub on_send : SendReq Config → SendAnswer Stream
  pub on_receive : ReceiveReq Config → Stream → Bool
  pub on_send_completed : SendReq Config → Bool

module _ {Config : Type 0} where
  -- buildSendRequest
  unfoldable pub build_send_request : String → Config → Step → SendReq Config
  build_send_request fs config s = record {
    filesystem = fs;
    from = s.from;
    to = s.to;
    resume_token = s.resume_token;
    replication_config = config;
  }

module _ {Config Stream : Type 0} where
  unfoldable pub build_receive_request : SendReq Config → Sent Stream → ReceiveReq Config
  build_receive_request sr sres = record {
    filesystem = sr.filesystem;
    to = sr.to;
    clear_resume_token = not sres.used_resume_token;
    replication_config = sr.replication_config;
  }

  -- From the receive request on; the stream is closed when the function returns.
  unfoldable pub receive_and_confirm :
      Endpoints Config Stream → SendReq Config → ReceiveReq Config → Stream → Run Config Stream
  receive_and_confirm e sr rr stream =
      if not (e.on_receive rr stream)
      then record {
        calls = send sr ∷ receive rr stream ∷ close_stream stream ∷ [];
        error = some receive_failed;
      }
      else record {
        calls = send sr ∷ receive rr stream ∷ send_completed sr ∷ close_stream stream ∷ [];
        error = if e.on_send_completed sr then none else some completed_failed;
      }

  unfoldable pub with_stream :
      Endpoints Config Stream → SendReq Config → Sent Stream → Option Stream → Run Config Stream
  unfolding receive_and_confirm build_receive_request
  with_stream e sr sres none = record { calls = send sr ∷ []; error = some no_stream }
  with_stream e sr sres (some stream) =
      receive_and_confirm e sr (build_receive_request sr sres) stream

  unfoldable pub after_send :
      Endpoints Config Stream → SendReq Config → SendAnswer Stream → Run Config Stream
  unfolding with_stream
  after_send e sr send_failed = record { calls = send sr ∷ []; error = some send_request_failed }
  after_send e sr nil_result = record { calls = send sr ∷ []; error = some nil_send_result }
  after_send e sr (sent sres) = with_stream e sr sres sres.stream

  -- doReplication
  unfoldable pub do_replication :
      Endpoints Config Stream → String → Config → Step → Run Config Stream
  unfolding build_send_request after_send
  do_replication e fs config s =
      let sr = build_send_request fs config s in after_send e sr (e.on_send sr)

  -- What a replication that returns no error has done.
  pub record IsComplete (e : Endpoints Config Stream) (fs : String) (config : Config) (s : Step)
      (run : Run Config Stream) : Type 0 where
    pub request : SendReq Config
    pub answer : Sent Stream
    pub stream : Stream
    pub reception : ReceiveReq Config
    pub request_for : request ≡ record {
      filesystem = fs;
      from = s.from;
      to = s.to;
      resume_token = s.resume_token;
      replication_config = config;
    }
    pub answered : e.on_send request ≡ sent answer
    pub streamed : answer.stream ≡ some stream
    pub reception_for : reception ≡ record {
      filesystem = fs;
      to = s.to;
      clear_resume_token = not answer.used_resume_token;
      replication_config = config;
    }
    pub received : e.on_receive reception stream ≡ true
    pub confirmed : e.on_send_completed request ≡ true
    pub order :
        run.calls
        ≡ send request
          ∷ receive reception stream
          ∷ send_completed request
          ∷ close_stream stream
          ∷ []

  -- The run of a request whose calls all succeed.
  record Succeeds (e : Endpoints Config Stream) (sr : SendReq Config) (answer : SendAnswer Stream)
      (run : Run Config Stream) : Type 0 where
    sres : Sent Stream
    stream : Stream
    answered : answer ≡ sent sres
    streamed : sres.stream ≡ some stream
    received : e.on_receive (build_receive_request sr sres) stream ≡ true
    confirmed : e.on_send_completed sr ≡ true
    order :
        run.calls
        ≡ send sr
          ∷ receive (build_receive_request sr sres) stream
          ∷ send_completed sr
          ∷ close_stream stream
          ∷ []

  stream-Succeeds :
      (e : Endpoints Config Stream) (sr : SendReq Config) (sres : Sent Stream) (o : Option Stream)
      → sres.stream ≡ o
      → (with_stream e sr sres o).error ≡ none
      → Succeeds e sr (sent sres) (with_stream e sr sres o)
  unfolding with_stream receive_and_confirm
  stream-Succeeds e sr sres none k h = cc
  stream-Succeeds e sr sres (some stream) k h = record {
    sres = sres;
    stream = stream;
    answered = refl;
    streamed = k;
    received = ground arith;
    confirmed = ground arith;
    order = ground arith;
  }

  answer-Succeeds :
      (e : Endpoints Config Stream) (sr : SendReq Config) (answer : SendAnswer Stream)
      → (after_send e sr answer).error ≡ none
      → Succeeds e sr answer (after_send e sr answer)
  unfolding after_send
  answer-Succeeds e sr send_failed h = cc
  answer-Succeeds e sr nil_result h = cc
  answer-Succeeds e sr (sent sres) h = stream-Succeeds e sr sres sres.stream refl h

  no_error_after :
      (e : Endpoints Config Stream) (sr : SendReq Config) (answer : SendAnswer Stream)
      (sres : Sent Stream) (stream : Stream)
      → answer ≡ sent sres
      → sres.stream ≡ some stream
      → e.on_receive (build_receive_request sr sres) stream ≡ true
      → e.on_send_completed sr ≡ true
      → (after_send e sr answer).error ≡ none
  unfolding after_send with_stream receive_and_confirm
  no_error_after e sr answer sres stream a s r c =
      rw (a, after_send, s, with_stream, receive_and_confirm, r, c) refl

  -- A replication returns no error exactly if it has sent the step's request, passed the stream of
  -- the answer to the receiver for the same filesystem and target, told it to clear its token
  -- exactly if the sender did not use it, then confirmed the same request to the sender, and closed
  -- the stream; each call succeeded, and there was no other.
  pub do_replication-IsComplete :
      (e : Endpoints Config Stream) (fs : String) (config : Config) (s : Step)
      → ((do_replication e fs config s).error ≡ none)
        ↔ IsComplete e fs config s (do_replication e fs config s)
  unfolding do_replication
  do_replication-IsComplete e fs config s = (complete, calm)
    where
      sr : SendReq Config
      sr = build_send_request fs config s

      complete :
          (do_replication e fs config s).error ≡ none
          → IsComplete e fs config s (do_replication e fs config s)
      complete h =
          let r = answer-Succeeds e sr (e.on_send sr) h in
          record {
            request = sr;
            answer = r.sres;
            stream = r.stream;
            reception = build_receive_request sr r.sres;
            request_for = refl;
            answered = r.answered;
            streamed = r.streamed;
            reception_for = refl;
            received = r.received;
            confirmed = r.confirmed;
            order = r.order;
          }

      calm :
          IsComplete e fs config s (do_replication e fs config s)
          → (do_replication e fs config s).error ≡ none
      calm c =
          no_error_after e sr (e.on_send sr) c.answer c.stream
            (subst (λ r. e.on_send r ≡ sent c.answer) c.request_for c.answered) c.streamed
            (subst (λ r. e.on_receive r c.stream ≡ true) c.reception_for c.received)
            (subst (λ r. e.on_send_completed r ≡ true) c.request_for c.confirmed)

  abbrev Confirms : Call Config Stream → Type 0
  Confirms (send_completed sr) = Unit
  Confirms _ = ⊥

  -- A confirmation is among the calls.
  abbrev pub Confirmed : List (Call Config Stream) → Type 0
  Confirmed [] = ⊥
  Confirmed (c ∷ cs) = Confirms c ⊎ Confirmed cs

  -- What the receiver has accepted.
  abbrev pub Accepted : Endpoints Config Stream → SendReq Config → Type 0
  Accepted e sr =
      (rr : ReceiveReq Config) × (stream : Stream) × (rr.to ≡ sr.to)
      × (e.on_receive rr stream ≡ true)

  Confirmed-with :
      (e : Endpoints Config Stream) (sr : SendReq Config) (sres : Sent Stream) (o : Option Stream)
      → Confirmed (with_stream e sr sres o).calls
      → Accepted e sr
  unfolding with_stream receive_and_confirm
  Confirmed-with e sr sres none h = absurd (ground arith)
  Confirmed-with e sr sres (some stream) h =
      (build_receive_request sr sres, stream, refl, ground arith)

  Confirmed-after :
      (e : Endpoints Config Stream) (sr : SendReq Config) (answer : SendAnswer Stream)
      → Confirmed (after_send e sr answer).calls
      → Accepted e sr
  unfolding after_send
  Confirmed-after e sr send_failed h = absurd (ground arith)
  Confirmed-after e sr nil_result h = absurd (ground arith)
  Confirmed-after e sr (sent sres) h = Confirmed-with e sr sres sres.stream h

  -- The sender is told that a step is complete only after the receiver accepted a stream for it.
  pub Confirmed-needs_received :
      (e : Endpoints Config Stream) (fs : String) (config : Config) (s : Step)
      → Confirmed (do_replication e fs config s).calls
      → (rr : ReceiveReq Config) × (stream : Stream) × (rr.to ≡ s.to)
        × (e.on_receive rr stream ≡ true)
  unfolding do_replication
  Confirmed-needs_received e fs config s h =
      let sr = build_send_request fs config s in Confirmed-after e sr (e.on_send sr) h
