-- ===== src/Agent/Delivery.antt =====
-- What a run of the agent has sent, and what it leaves in the spool.
use beacon_alerts.Prelude.{
  ℕ, zero, suc, ◌+◌, String, ◌≡◌, refl, ap, ◌∙◌, ◌⊎◌, inl, inr, Bool, true, false, Option, none,
  some, List, [], ◌∷◌, arith, length, take, All, eqb, is_blank, eq_iff, Bool-cases,
}
use beacon_alerts.Fallible.{ok, err, send_failed, io_failed}
use beacon_alerts.Model.{Event}
use beacon_alerts.Model.Validate.{Formats, validate}
use beacon_alerts.Client.{ClientLibrary, build_client}
use beacon_alerts.Agent.{
  SpoolFile, Spool, SpoolRoot, AgentConfig, open_spool, Drained, file_name, list,
  deliver_with_retry, send_all, drain,
}

-- The file holds a valid event under its name, as `enqueue` writes it.
abbrev pub IsTidy : Formats → SpoolFile → Type 0
IsTidy x f = (e : Event) × (f.event ≡ some e) × (validate x e ≡ ok tt) × (f.name ≡ file_name e)

-- The first files are those of the events.
abbrev pub Named : List SpoolFile → List Event → Type 0
Named files [] = Unit
Named [] (e ∷ es) = ⊥
Named (f ∷ files) (e ∷ es) = (f.name ≡ file_name e) × Named files es

abbrev pub drop : ℕ → List SpoolFile → List SpoolFile
drop zero files = files
drop (suc n) [] = []
drop (suc n) (f ∷ files) = drop n files

pub list-Named :
    (x : Formats) (files : List SpoolFile)
    → All (IsTidy x) files
    → (events : List Event) × (list x files ≡ ok events)
      × Named files events
      × (length events ≡ length files)
unfolding list
list-Named x [] h = ([], refl, tt, refl)
list-Named x (f ∷ files) ((e, holds, valid, named), h) =
    let (events, done, names, same) = list-Named x files h in
    (e ∷ events, rw (holds, valid, done) refl, (named, names), omega (arith, same))

pub Named-take :
    (files : List SpoolFile) (events : List Event) (n : ℕ)
    → Named files events
    → Named files (take n events)
Named-take files events zero h = tt
Named-take files [] (suc n) h = tt
Named-take [] (e ∷ es) (suc n) h = absurd h
Named-take (f ∷ files) (e ∷ es) (suc n) h = (h.0, Named-take files es n h.1)

-- the event after the first ones
abbrev pub next : ℕ → List Event → Option Event
next n [] = none
next zero (e ∷ es) = some e
next (suc n) (e ∷ es) = next n es

module _ {W : Type 0} (submit : Event → W → Bool × W) (max_attempts : ℕ) where
  -- Each event in turn was sent with success.
  abbrev pub Sends : List Event → W → W → Type 0
  Sends [] w w' = w ≡ w'
  Sends (e ∷ es) w w' =
      (m : W) × (deliver_with_retry submit max_attempts e w ≡ (true, m)) × Sends es m w'

  -- The first `count` events were sent, and only their files are gone; the run ended with the last
  -- event, or at the next one, which was not sent or whose file could not be removed.
  pub record Leaves (removes : Event → Bool) (events : List Event) (before : ℕ) (spool : Spool)
      (w : W) (o : Drained W) : Type 0 where
    pub count : ℕ
    pub at : W
    pub sends : Sends (take count events) w at
    pub pending : o.spool.pending ≡ drop count spool.pending
    pub ended :
        ((count ≡ length events) × (o.delivered ≡ ok (before + count)) × (o.world ≡ at))
        ⊎ ((e : Event) × (next count events ≡ some e)
            × (((o.delivered ≡ err send_failed)
                  × (deliver_with_retry submit max_attempts e at ≡ (false, o.world)))
                ⊎ ((o.delivered ≡ err io_failed)
                    × (removes e ≡ false)
                    × (deliver_with_retry submit max_attempts e at ≡ (true, o.world)))))

  Leaves-cons :
      (removes : Event → Bool) (e : Event) (es : List Event) (n : ℕ) (f : SpoolFile)
      (files : List SpoolFile) (temporaries : List String) (w m : W) (o : Drained W)
      → deliver_with_retry submit max_attempts e w ≡ (true, m)
      → Leaves removes es (n + 1) (record { pending = files; temporaries = temporaries }) m o
      → Leaves removes (e ∷ es) n (record { pending = f ∷ files; temporaries = temporaries }) w o
  Leaves-cons removes e es n f files temporaries w m o sent l = record {
    count = suc l.count;
    at = l.at;
    sends = (m, sent, l.sends);
    pending = l.pending;
    ended = elim l.ended [
      | inl (all, answer, world) ↦ inl (omega (arith, all), answer ∙ ap ok (omega arith), world)
      | inr stopped ↦ inr stopped
    ];
  }

  send_all-Leaves :
      (removes : Event → Bool) (events : List Event) (n : ℕ) (files : List SpoolFile)
      (temporaries : List String) (w : W)
      → Named files events
      → Leaves removes events n
          (record { pending = files; temporaries = temporaries })
          w
          (send_all submit removes max_attempts events n
            (record { pending = files; temporaries = temporaries })
            w)
  unfolding send_all
  send_all-Leaves removes [] n files temporaries w h = record {
    count = 0;
    at = w;
    sends = refl;
    pending = refl;
    ended = inl (refl, ap ok (omega arith), refl);
  }
  send_all-Leaves removes (e ∷ es) n [] temporaries w h = absurd h
  send_all-Leaves removes (e ∷ es) n (f ∷ files) temporaries w h =
      let m = (deliver_with_retry submit max_attempts e w).1 in
      elim (Bool-cases (deliver_with_retry submit max_attempts e w).0) [
        | inr lost ↦
            rw (lost, send_all)
              (record {
                count = 0;
                at = w;
                sends = refl;
                pending = refl;
                ended = inr (e, refl, inl (refl, ap (λ (b : Bool). (b, m)) lost));
              })
        | inl sent ↦ elim (Bool-cases (removes e)) [
          | inl gone ↦
              rw (sent, gone, (eq_iff f.name (file_name e)).1 h.0, send_all)
                (Leaves-cons removes e es n f files temporaries w m _
                  (ap (λ (b : Bool). (b, m)) sent)
                  (send_all-Leaves removes es (n + 1) files temporaries m h.1))
          | inr kept ↦
              rw (sent, kept, send_all)
                (record {
                  count = 0;
                  at = w;
                  sends = refl;
                  pending = refl;
                  ended = inr (e, refl, inr (refl, kept, ap (λ (b : Bool). (b, m)) sent));
                })
        ]
      ]

-- The agent has a token and at least one attempt, and its spool and its client can be opened and
-- the pending directory read.
pub record CanRun (lib : ClientLibrary) (config : AgentConfig) (root : SpoolRoot) : Type 0 where
  pub some_token : is_blank config.token ≡ false
  pub some_attempt : eqb config.max_attempts 0 ≡ false
  pub opened : open_spool root ≡ ok tt
  pub read : root.read ≡ true
  pub built : build_client lib config.server config.ca_file config.allow_http ≡ ok tt

-- If the agent can run, a run over a spool of tidy files sends the events of the first files in
-- their order, up to the limit: for some number of events, exactly these were sent with success,
-- one after the other, and exactly their files are gone. The run counts all the events up to the
-- limit, or it stops with an error at the next one, which was not sent, or was sent and its file
-- cannot be removed.
pub drain-Leaves :
    {W : Type 0} (submit : Event → W → Bool × W) (x : Formats) (lib : ClientLibrary)
    (config : AgentConfig) (root : SpoolRoot) (spool : Spool) (w : W)
    → CanRun lib config root
    → All (IsTidy x) spool.pending
    → (events : List Event) × (list x spool.pending ≡ ok events)
      × (length events ≡ length spool.pending)
      × Leaves submit config.max_attempts root.removes
          (take config.limit events)
          0
          spool
          w
          (drain submit x lib config root spool w)
unfolding drain
drain-Leaves submit x lib config root spool w can h =
    let (events, done, names, same) = list-Named x spool.pending h in
    (
      events,
      done,
      same,
      rw (drain, can.some_token, can.some_attempt, can.opened, can.built, can.read, done)
          (send_all-Leaves submit config.max_attempts root.removes (take config.limit events) 0
            spool.pending spool.temporaries w (Named-take spool.pending events config.limit names)),
    )
