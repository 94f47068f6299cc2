-- ===== src/Native/Adds.antt =====
-- What is written to the host's queue, and when.
use codex_a2a_gateway.Base.{
  ℕ, suc, ◌≤◌, ◌≡◌, ◌≢◌, refl, ap, ◌∙◌, length, Bool, true, false, ◌&&◌, Option, none, some, List,
  [], ◌∷◌, arith, if◌then◌else◌,
}
use codex_a2a_gateway.Broker.Content.{codes}
use codex_a2a_gateway.Texts.{Text, same_text}
use codex_a2a_gateway.Peer.Json.{Json, Members, get}
use codex_a2a_gateway.Peer.Envelopes.{is_text}
use codex_a2a_gateway.Native.Session.{
  Stop, caught, crashed, canceled, Reading, line, stopped, Session, Written, Step, done, stops,
  end_write, refusal, next, LineKind, responds, asks, ignored, kind_of, id_of, end_line, response,
}
use codex_a2a_gateway.Native.Queue.{
  RpcEnd, answered, unsupported, outcome_unknown, Method, initialize, initialized, call_message,
  handshake, submit_call, end_call, after_handshake, rpc, enqueue, add_params, end_rpc,
  get_or_empty, object_of, check_id, check_item,
}

-- Whether a message adds to the queue.
unfoldable pub is_add : Json → Bool
unfolding get same_text
is_add (Json.object m) = is_text (get "method" m) (codes "thread/queue/add")
is_add j = false

abbrev pub adds : Written → ℕ
adds [] = 0
adds (message ∷ log) = if is_add message then suc (adds log) else adds log

refusal-adds : (id : Json) (log : Written) → adds (refusal id ∷ log) ≡ adds log
unfolding is_add get
refusal-adds id log = refl

call_message-adds :
    (params : Json) (log : Written)
    → adds log ≡ 0
    → adds (call_message Method.queue_add params ∷ log) ≡ 1
unfolding is_add get same_text
call_message-adds params log e = ap suc e

module _ {A B : Type 0} where
  -- What holds of the log, and of the log of what follows, holds after both.
  next-Keeps :
      (Q : Written → Type 0) (e : Step A) (log : Written) (f : A → Written → Step B × Written)
      → Q log
      → ((a : A) → Q (f a log).1)
      → Q (next (e, log) f).1
  next-Keeps Q (done a) log f q h = h a
  next-Keeps Q (stops e) log f q h = q

module _ (writes : ℕ → Option Stop) where
  end_line-adds :
      (n : ℕ) (message : Members) (kind : LineKind) (rest : List Reading) (log : Written)
      (later : Written → Step (Members × List Reading) × Written)
      → adds log ≡ n
      → ((log' : Written) → adds log' ≡ n → adds (later log').1 ≡ n)
      → adds (end_line writes message kind rest log later).1 ≡ n
  end_line-adds n message responds rest log later e h = e
  end_line-adds n message ignored rest log later e h = h log e
  end_line-adds n message asks rest log later e h =
      let asked = refusal-adds (id_of message) log ∙ e in
      next-Keeps (λ log'. adds log' ≡ n) (end_write (writes (length log)))
        (refusal (id_of message) ∷ log) (λ _ log'. later log') asked (λ _. h _ asked)

  -- Reading a response adds nothing.
  response-adds :
      (n request : ℕ) (output : List Reading) (log : Written)
      → adds log ≡ n
      → adds (response writes request output log).1 ≡ n
  unfolding response
  response-adds n request [] log e = e
  response-adds n request (stopped x ∷ rest) log e = e
  response-adds n request (line none ∷ rest) log e = e
  response-adds n request (line (some Json.null) ∷ rest) log e = e
  response-adds n request (line (some Json.fraction) ∷ rest) log e = e
  response-adds n request (line (some (Json.flag b)) ∷ rest) log e = e
  response-adds n request (line (some (Json.number k)) ∷ rest) log e = e
  response-adds n request (line (some (Json.negative k)) ∷ rest) log e = e
  response-adds n request (line (some (Json.text t)) ∷ rest) log e = e
  response-adds n request (line (some (Json.list items)) ∷ rest) log e = e
  response-adds n request (line (some (Json.object message)) ∷ rest) log e =
      end_line-adds n message (kind_of request message) rest log _ e
        (λ log' e'. response-adds n request rest log' e')

  module _ (client : Json) where
    handshake-adds : (output : List Reading) → adds (handshake client writes output).1 ≡ 0
    unfolding handshake is_add get
    handshake-adds output =
        next-Keeps (λ log. adds log ≡ 0) (end_write (writes 0)) (initialize client ∷ []) _ refl
          λ _.
            let read = response writes 1 output (initialize client ∷ []) in
            let silent = response-adds 0 1 output (initialize client ∷ []) refl in
            next-Keeps (λ log. adds log ≡ 0) read.0 read.1 _ silent
              λ _.
                next-Keeps (λ log. adds log ≡ 0) (end_write (writes (length read.1)))
                  (initialized ∷ read.1) _ silent (λ _. silent)

    -- The message of the call is the only one that may add.
    submit_call-adds :
        (n : ℕ) (method : Method) (params : Json) (output : List Reading) (log : Written)
        → adds (call_message method params ∷ log) ≡ n
        → adds (submit_call client writes method params output log).1 ≡ n
    unfolding submit_call
    submit_call-adds n method params output log e =
        next-Keeps (λ log'. adds log' ≡ n) (end_write (writes (length log)))
          (call_message method params ∷ log) _ e (λ _. response-adds n 2 output _ e)

-- A message that adds is written at most once, and not at all where NativeUnsupported is raised.
pub record IsSubmission {A : Type 0} (r : RpcEnd A × Written) : Type 0 where
  pub at_most_once : adds r.1 ≤ 1
  pub not_where_unsupported : r.0 ≡ RpcEnd.unsupported → adds r.1 ≡ 0

if_holds : {R : Type 0} (Q : R → Type 0) (b : Bool) (x y : R) → Q x → Q y → Q (if b then x else y)
if_holds Q true x y q q' = q
if_holds Q false x y q q' = q'

silent-IsSubmission :
    {A : Type 0} (ended : RpcEnd A) (log : Written) → adds log ≡ 0 → IsSubmission (ended, log)
silent-IsSubmission ended log e = record {
  at_most_once = omega arith;
  not_where_unsupported = λ _. e;
}

module _ (client : Json) where
  end_call-IsSubmission :
      (called : Step (Members × List Reading)) (log : Written)
      → adds log ≡ 1
      → IsSubmission (end_call client Method.queue_add (called, log))
  end_call-IsSubmission (done (m, rest)) log e = record {
    at_most_once = omega arith;
    not_where_unsupported = λ h. cc;
  }
  end_call-IsSubmission (stops caught) log e = record {
    at_most_once = omega arith;
    not_where_unsupported = λ h. cc;
  }
  end_call-IsSubmission (stops crashed) log e = record {
    at_most_once = omega arith;
    not_where_unsupported = λ h. cc;
  }
  end_call-IsSubmission (stops canceled) log e = record {
    at_most_once = omega arith;
    not_where_unsupported = λ h. cc;
  }

  after_handshake-IsSubmission :
      (writes : ℕ → Option Stop) (params : Json) (shaken : Step (List Reading)) (log : Written)
      → adds log ≡ 0
      → IsSubmission (after_handshake client writes Method.queue_add params (shaken, log))
  after_handshake-IsSubmission writes params (stops e) log none_yet =
      silent-IsSubmission _ log none_yet
  after_handshake-IsSubmission writes params (done rest) log none_yet =
      let called = submit_call client writes Method.queue_add params rest log in
      end_call-IsSubmission called.0 called.1 (
        submit_call-adds writes client 1 Method.queue_add params rest log
          (call_message-adds params log none_yet))

  rpc-IsSubmission :
      (s : Session) (params : Json) → IsSubmission (rpc client s Method.queue_add params)
  unfolding rpc
  rpc-IsSubmission s params =
      let shaken = handshake client s.writes s.output in
      if_holds IsSubmission (s.capable && s.started)
        (after_handshake client s.writes Method.queue_add params shaken) (RpcEnd.unsupported, [])
        (after_handshake-IsSubmission s.writes params shaken.0 shaken.1
          (handshake-adds s.writes client s.output))
        (silent-IsSubmission RpcEnd.unsupported [] refl)

  -- A call of the other method writes none.
  after_handshake-silent :
      (writes : ℕ → Option Stop) (params : Json) (shaken : Step (List Reading)) (log : Written)
      → adds log ≡ 0
      → adds (after_handshake client writes Method.queue_list params (shaken, log)).1 ≡ 0
  unfolding is_add get
  after_handshake-silent writes params (stops e) log none_yet = none_yet
  after_handshake-silent writes params (done rest) log none_yet =
      let called = submit_call client writes Method.queue_list params rest log in
      end_call-silent called.0 called.1
        (submit_call-adds writes client 0 Method.queue_list params rest log none_yet)
    where
      end_call-silent :
          (called : Step (Members × List Reading)) (log' : Written)
          → adds log' ≡ 0
          → adds (end_call client Method.queue_list (called, log')).1 ≡ 0
      end_call-silent (done (m, rest')) log' e = e
      end_call-silent (stops x) log' e = e

  pub rpc-silent :
      (s : Session) (params : Json) → adds (rpc client s Method.queue_list params).1 ≡ 0
  unfolding rpc
  rpc-silent s params =
      let shaken = handshake client s.writes s.output in
      if_holds (λ r. adds r.1 ≡ 0) (s.capable && s.started)
        (after_handshake client s.writes Method.queue_list params shaken) (RpcEnd.unsupported, [])
        (after_handshake-silent s.writes params shaken.0 shaken.1
          (handshake-adds s.writes client s.output))
        refl

check_id-supported : (b : Bool) (id : Text) → check_id b id ≢ RpcEnd.unsupported
check_id-supported true (c ∷ id) h = cc
check_id-supported true [] h = cc
check_id-supported false id h = cc

check_item-supported :
    (delivery t : Text) (item : Members) → check_item delivery t item ≢ RpcEnd.unsupported
unfolding check_item
check_item-supported delivery t item = check_id-supported _ _

end_rpc-IsSubmission :
    {A B : Type 0} (ended : RpcEnd A) (log : Written) (f : A → RpcEnd B)
    → ((a : A) → f a ≢ RpcEnd.unsupported)
    → IsSubmission (ended, log)
    → IsSubmission (end_rpc ended f, log)
end_rpc-IsSubmission (answered a) log f supported s = record {
  at_most_once = s.at_most_once;
  not_where_unsupported = λ h. absurd (supported a h);
}
end_rpc-IsSubmission unsupported log f supported s = record {
  at_most_once = s.at_most_once;
  not_where_unsupported = λ h. s.not_where_unsupported refl;
}
end_rpc-IsSubmission outcome_unknown log f supported s = record {
  at_most_once = s.at_most_once;
  not_where_unsupported = λ h. cc;
}
end_rpc-IsSubmission RpcEnd.crashed log f supported s = record {
  at_most_once = s.at_most_once;
  not_where_unsupported = λ h. cc;
}
end_rpc-IsSubmission RpcEnd.canceled log f supported s = record {
  at_most_once = s.at_most_once;
  not_where_unsupported = λ h. cc;
}

-- Whatever the host's app-server prints, and whichever reads and writes fail: `enqueue` writes the message
-- that adds to the queue at most once, and where it raises NativeUnsupported it has not written it, and
-- has not begun to.
pub enqueue-IsSubmission :
    (client : Json) (s : Session) (thread delivery t : Text)
    → IsSubmission (enqueue client s thread delivery t)
unfolding enqueue
enqueue-IsSubmission client s thread delivery t =
    let called = rpc client s Method.queue_add (add_params thread delivery t) in
    end_rpc-IsSubmission called.0 called.1 _
      (λ m. check_item-supported delivery t (object_of (get_or_empty (get "queuedSubmission" m))))
      (rpc-IsSubmission client s (add_params thread delivery t))
