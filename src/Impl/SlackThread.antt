-- ===== src/Impl/SlackThread.antt =====
-- plugin/impl/slack.go: notifications by a webhook, and in threads that a lease keeps open.
use Prim.Native.String.{◌++◌}
use maintenance_controller.Base.{
  String, not, Option, none, some, ◌⊎◌, inl, inr, Run, Outcome, done, panicked, pure, panic, ◌>>=◌,
  str_eq, if◌then◌else◌,
}
use maintenance_controller.Base.Int.{ℤ, leb_ℤ}
use maintenance_controller.Errors.{Error, message, wrapped, is_not_found, try, as_result}
use maintenance_controller.GoTime.{Time, Duration, sub_time}
use maintenance_controller.World.{World, Parameters, on_ext}
use maintenance_controller.Api.{Api, Lease, LeaseKey}
use maintenance_controller.Impl.Stagger.{lease_span}

pub record SlackWebhook : Type 0 where
  pub hook : String
  pub channel : String
  pub message : String

-- RenderNotificationTemplate, json.Marshal of the text and the channel, and package net/http: the
-- answer of a POST is its body.
pub record Web (E R : Type 0) : Type 0 where
  pub render : String → Parameters → World E → Error ⊎ String
  pub marshal : String → String → Error ⊎ String
  pub new_request : String → String → Error ⊎ R
  pub set_json : R → R
  pub post : R → E → (Error ⊎ String) × E
  -- the whole text of the body
  pub read_all : String → E → (Error ⊎ String) × E

pub record SlackThread : Type 0 where
  pub channel : String
  pub title : String
  pub message : String
  pub lease_name : LeaseKey
  pub period : Duration

-- RenderNotificationTemplate, PostMessageContext of package slack in a channel, alone or below the
-- message of a timestamp, and int32(d.Seconds()).
pub record SlackApi (E : Type 0) : Type 0 where
  pub render : String → Parameters → World E → Error ⊎ String
  pub post : String → String → E → (Error ⊎ String) × E
  pub reply : String → String → String → E → (Error ⊎ String) × E
  pub seconds : Duration → ℤ
  pub show_key : LeaseKey → String

abbrev same : Error → Error
same err = err

module _ {E R : Type 0} (web : Web E R) (sw : SlackWebhook) where
  -- The header is set before the error of the request is looked at: the request is nil then.
  abbrev send : Error ⊎ R → Run (World E) (Error ⊎ Unit {0})
  send (inl err) = panic
  send (inr request) = try (on_ext (web.post (web.set_json request))) same (λ body.
      try (on_ext (web.read_all body)) same (λ text. pure (
        if not (str_eq text "ok")
        then inl (message "slack webhook response is not ok")
        else inr tt)))

  -- SlackWebhook.Notify
  unfoldable pub notify_webhook : Parameters → Run (World E) (Error ⊎ Unit {0})
  notify_webhook p w =
      try (pure (web.render sw.message p w)) same
        (λ text.
          try (pure (web.marshal text sw.channel)) same
            (λ marshaled. send (web.new_request sw.hook marshaled)))
        w

module _ {E : Type 0} (api : Api E) (slack : SlackApi E) (st : SlackThread) where
  unfoldable pub post_title : Parameters → Run (World E) (Error ⊎ String)
  post_title p w =
      try (pure (slack.render st.title p w)) same (λ text. on_ext (slack.post st.channel text)) w

  abbrev drop_timestamp : Error ⊎ String → Error ⊎ Unit {0}
  drop_timestamp (inl err) = inl err
  drop_timestamp (inr ts) = inr tt

  unfoldable pub reply_message : Parameters → String → Run (World E) (Error ⊎ Unit {0})
  reply_message p parent w =
      try (pure (slack.render st.message p w)) same
        (λ text. do
          answer ← on_ext (slack.reply st.channel text parent)
          pure (drop_timestamp answer))
        w

  unfoldable pub start_thread : Parameters → Run (World E) (Error ⊎ String)
  unfolding post_title reply_message
  start_thread p = try (post_title p) (wrapped "failed to post message to slack") (λ parent.
      try (reply_message p parent) (wrapped "failed to reply to slack thread")
        (λ u. pure (inr parent)))

  unfoldable pub thread_lease : String → Time → Lease
  thread_lease parent now = record {
    key = st.lease_name;
    holder = some parent;
    acquire_time = some now;
    renew_time = some now;
    duration_seconds = some (slack.seconds st.period);
    transitions = none;
  }

  unfoldable pub create_lease : String → Run (World E) (Error ⊎ Unit {0})
  unfolding thread_lease
  create_lease parent = do
    now ← on_ext api.now
    answer ← on_ext (api.create_lease (thread_lease parent now))
    pure (as_result answer)

  unfoldable pub renewed : String → Time → Lease → Lease
  renewed parent now lease = record lease {
    holder = some parent;
    renew_time = some now;
    duration_seconds = some (slack.seconds st.period);
  }

  unfoldable pub update_lease : String → Lease → Run (World E) (Error ⊎ Unit {0})
  unfolding renewed
  update_lease parent lease = do
    now ← on_ext api.now
    answer ← on_ext (api.patch_lease (renewed parent now lease))
    pure (as_result answer)

  abbrev start_then :
      Parameters
      → String
      → (String → Run (World E) (Error ⊎ Unit {0}))
      → Run (World E) (Error ⊎ Unit {0})
  start_then p text keep_lease =
      try (start_thread p) (wrapped "failed to create slack thread") (λ parent.
        try (keep_lease parent) (wrapped (text ++ slack.show_key st.lease_name))
          (λ u. pure (inr u)))

  abbrev reply_to : Parameters → Option String → Run (World E) (Error ⊎ Unit {0})
  reply_to p none = pure (inl (message "slack thread leases has no holder"))
  reply_to p (some parent) =
      try (reply_message p parent) (wrapped "failed to reply to slack thread") (λ u. pure (inr u))

  abbrev with_span :
      Parameters → Lease → Outcome (Duration × Time) → Run (World E) (Error ⊎ Unit {0})
  with_span p lease panicked = panic
  with_span p lease (done (span, renewal)) = do
    now ← on_ext api.now
    (if leb_ℤ (sub_time now renewal) span
        then reply_to p lease.holder
        else start_then p "failed to update slack thread lease "
            (λ parent. update_lease parent lease))

  abbrev with_lease : Parameters → Error ⊎ Lease → Run (World E) (Error ⊎ Unit {0})
  with_lease p (inl err) =
      if is_not_found err
      then start_then p "failed to create slack thread lease " create_lease
      else pure (inl err)
  with_lease p (inr lease) = with_span p lease (lease_span lease)

  -- SlackThread.Notify
  unfoldable pub notify_thread : Parameters → Run (World E) (Error ⊎ Unit {0})
  unfolding start_thread create_lease update_lease reply_message sub_time
  notify_thread p = do found ← on_ext (api.get_lease st.lease_name); with_lease p found
