-- ===== src/Contract/Server/Writes.antt =====
-- cmd/server/main.go: where the handlers take the database.
use sqlite_durable_workflow.Common.{⊤, refl, ◌≡◌, String, ℤ, Option, none, some}
use sqlite_durable_workflow.Store.Session.{Session}
use sqlite_durable_workflow.Store.Platform.{Platform}
use sqlite_durable_workflow.Section.{
  Section, create, acquire, renew, release, complete, fail, wait, send, consume, add_timer, perform,
}
use sqlite_durable_workflow.Server.Replies.{Handler, decoded}
use sqlite_durable_workflow.Server.Handlers.{duration_of, config_of}
use sqlite_durable_workflow.Server.Routes.{Writer}
use sqlite_durable_workflow.Server.Serve.{Server, write}
use sqlite_durable_workflow.Invariant.{IsWellFormed}
use sqlite_durable_workflow.Contract.Server.Reached.{
  Reached, same-Reached, perform-Reached, start_step-Reached, fail_step-Reached, retry_step-Reached,
}

-- The sections that an endpoint is for, with the id in the request's path.
abbrev pub Made : Writer → String → Section → Type 0
Made Writer.create_workflow id (create now j workflow_type) = ⊤
Made Writer.complete_workflow id (complete now j worker) = j ≡ id
Made Writer.fail_workflow id (fail now j worker) = j ≡ id
Made Writer.mark_waiting id (wait now j worker) = j ≡ id
Made Writer.acquire_lease id (acquire now worker duration) = ⊤
Made Writer.renew_lease id (renew now j worker duration) = j ≡ id
Made Writer.release_lease id (release now j worker) = j ≡ id
Made Writer.start_step id (Section.start_step now j n input) = ⊤
Made Writer.complete_step id (Section.complete_step now j worker n input output) = ⊤
Made Writer.fail_step id (Section.fail_step now j n input message) = ⊤
Made Writer.send_signal id (send now j signal_type payload) = ⊤
Made Writer.consume_signal id (consume j) = j ≡ id
Made Writer.create_timer id (add_timer j wake_at) = ⊤
Made Writer.retry_step id (add_timer j wake_at) = ⊤
Made Writer.retry_step id (wait now j worker) = ⊤
Made _ _ _ = ⊥

decoded-Reached :
    {F B : Type 0} (p : Platform) (Q : Section → Type 0) (s : Session) (o : Option B)
    (f : B → Handler F)
    → s.saved ≡ none
    → IsWellFormed s.db
    → ((req : B) → Reached p Q s.db (f req s).1)
    → Reached p Q s.db (decoded o f s).1
decoded-Reached p Q s none f e wf h = same-Reached p Q s e wf
decoded-Reached p Q s (some req) f e wf h = h req

module _ (v : Server) (now later : ℤ) (s : Session) (e : s.saved ≡ none)
    (wf : IsWellFormed s.db) where
  calls :
      (Q : Section → Type 0) (c : Section)
      → Q c
      → Reached v.platform Q s.db (perform v.platform c s).1
  calls Q c q = perform-Reached v.platform Q s.db c s q (same-Reached v.platform Q s e wf)

  pub write-Reached :
      (w : Writer) (id body : String)
      → Reached v.platform (Made w id) s.db (write v now later w id body s).1
  unfolding write perform
  write-Reached Writer.create_workflow id body =
      decoded-Reached v.platform (Made Writer.create_workflow id) s
        (v.decoder.create_workflow_req body) _ e wf
        λ req.
          calls (Made Writer.create_workflow id) (create now req.workflow_id req.workflow_type) tt
  write-Reached Writer.complete_workflow id body =
      decoded-Reached v.platform (Made Writer.complete_workflow id) s (v.decoder.worker_req body) _
        e wf λ req. calls (Made Writer.complete_workflow id) (complete now id req.worker_id) refl
  write-Reached Writer.fail_workflow id body =
      decoded-Reached v.platform (Made Writer.fail_workflow id) s (v.decoder.worker_req body) _ e wf
        λ req. calls (Made Writer.fail_workflow id) (fail now id req.worker_id) refl
  write-Reached Writer.mark_waiting id body =
      decoded-Reached v.platform (Made Writer.mark_waiting id) s (v.decoder.worker_req body) _ e wf
        λ req. calls (Made Writer.mark_waiting id) (wait now id req.worker_id) refl
  write-Reached Writer.acquire_lease id body =
      decoded-Reached v.platform (Made Writer.acquire_lease id) s (v.decoder.acquire_req body) _ e
        wf
        λ req.
          calls (Made Writer.acquire_lease id)
            (acquire now req.worker_id (duration_of v.own_duration req.lease_duration)) tt
  write-Reached Writer.renew_lease id body =
      decoded-Reached v.platform (Made Writer.renew_lease id) s (v.decoder.renew_req body) _ e wf
        λ req.
          calls (Made Writer.renew_lease id)
            (renew now id req.worker_id (duration_of v.own_duration req.lease_duration)) refl
  write-Reached Writer.release_lease id body =
      decoded-Reached v.platform (Made Writer.release_lease id) s (v.decoder.worker_req body) _ e wf
        λ req. calls (Made Writer.release_lease id) (release now id req.worker_id) refl
  write-Reached Writer.start_step id body =
      decoded-Reached v.platform (Made Writer.start_step id) s (v.decoder.step_req body) _ e wf
        λ req.
          start_step-Reached v.platform (Made Writer.start_step id) now req.workflow_id
            req.worker_id req.step_number req.input s tt e wf
  write-Reached Writer.complete_step id body =
      decoded-Reached v.platform (Made Writer.complete_step id) s (v.decoder.complete_step_req body)
        _ e wf
        λ req.
          calls (Made Writer.complete_step id)
            (Section.complete_step now req.workflow_id req.worker_id req.step_number req.input
              req.output)
            tt
  write-Reached Writer.fail_step id body =
      decoded-Reached v.platform (Made Writer.fail_step id) s (v.decoder.fail_step_req body) _ e wf
        λ req.
          fail_step-Reached v.platform (Made Writer.fail_step id) now req.workflow_id req.worker_id
            req.step_number req.input req.error s tt e wf
  write-Reached Writer.send_signal id body =
      decoded-Reached v.platform (Made Writer.send_signal id) s (v.decoder.signal_req body) _ e wf
        λ req.
          calls (Made Writer.send_signal id) (send now req.workflow_id req.signal_type req.payload)
            tt
  write-Reached Writer.consume_signal id body =
      calls (Made Writer.consume_signal id) (consume id) refl
  write-Reached Writer.create_timer id body =
      decoded-Reached v.platform (Made Writer.create_timer id) s (v.decoder.timer_req body) _ e wf
        λ req. calls (Made Writer.create_timer id) (add_timer req.workflow_id req.wake_at_epoch) tt
  write-Reached Writer.retry_step id body =
      decoded-Reached v.platform (Made Writer.retry_step id) s (v.decoder.retry_req body) _ e wf
        λ req.
          retry_step-Reached v.platform (Made Writer.retry_step id) now later req.workflow_id
            req.worker_id req.step_number req.retry_count (config_of req) s (λ t. tt) tt e wf
