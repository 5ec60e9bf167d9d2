-- ===== src/Start/Endings.antt =====
-- How the goroutines of cmd/order_service/main.go end.
use wb_l.Start.Components.{
  Stage, sleeping, selecting, crashed, fatal, fatal_error, Components, send_error, server_error,
  consumer_error, lifecycle_text, ComponentStep, server_returned, consumer_returned,
  consumer_panicked, woke, received, Started, began, stepped,
}
use wb_l.Base.Lists.{length}
use wb_l.Base.{
  ◌≤◌, is_some, inl, inr, arith, List, Option-cases, false, [], some, Option, ◌++◌, none, refl, ◌⊎◌,
  true, ◌∷◌, ◌≡◌,
}
use wb_l.Server.Listener.{start_server, ListenError, not_listening, server_closed}
use wb_l.Consumer.Lifecycle.{
  new_consumer, start, reader_config, LifecycleError, Consumer, ReaderConfig,
}
use wb_l.Config.{KafkaConfig}
use mathlib.Core.Path.{subst}
use wb_l.Base.Text.{codes, Text}
use mathlib.Core.Option

-- The error of a listener that failed.
abbrev pub IsListenError : Text → Type 0
IsListenError t =
    (e : Text) × (t ≡ codes "HTTP server error: " ++ codes "failed to start HTTP server: " ++ e)

module _ {Reader W : Type 0} (new_reader : ReaderConfig → W → Option (Reader × W))
    (close : Reader → W → Option Text × W) (config : KafkaConfig) where
  record IsRun (s : Components Reader W) : Type 0 where
    unused : s.consumer_done ≡ false → s.consumer ≡ new_consumer
    silent : s.server_done ≡ false → s.errors ≡ []
    sent : (s.errors ≡ []) ⊎ ((t : Text) × IsListenError t × (s.errors ≡ t ∷ []))
    reported : (t : Text) → s.main ≡ fatal t → IsListenError t

  send_server :
      (err : Option ListenError)
      → (send_error server_error (start_server err) [] ≡ some [])
        ⊎ ((t : Text) × IsListenError t
            × (send_error server_error (start_server err) [] ≡ some (t ∷ [])))
  unfolding send_error start_server
  send_server none = inl refl
  send_server (some server_closed) = inl refl
  send_server (some (not_listening e)) = inr (_, (e, refl), refl)

  start-new :
      (k k' : W) (err : Option LifecycleError) (c : Consumer Reader)
      → start new_reader close config new_consumer k ≡ some (err, c, k')
      → err ≡ none
  unfolding start new_consumer
  start-new k k' err c e = elim (Option-cases (new_reader (reader_config config) k)) [
    | inl bad ↦ absurd (ground (arith, bad, e))
    | inr ((r, v), made) ↦ ground (arith, made, e)
  ]

  step-IsRun :
      (s t : Components Reader W) → IsRun s → ComponentStep new_reader close config s t → IsRun t
  unfolding send_error
  step-IsRun s t i (server_returned err errors live waits put) =
      let put' : send_error server_error (start_server err) [] ≡ some errors =
        rw (← i.silent waits) put in
      record {
        unused = i.unused;
        silent = λ e. absurd (ground (arith, e));
        sent = elim (send_server err) [
          | inl none_sent ↦ inl (ground (arith, none_sent, put'))
          | inr (x, known, one_sent) ↦ inr (x, known, ground (arith, one_sent, put'))
        ];
        reported = i.reported;
      }
  step-IsRun s t i (consumer_returned err c k errors live waits ran put) =
      let fine : err ≡ none = start-new s.kafka k err c (rw (← i.unused waits) ran) in
      let same : s.errors ≡ errors =
        let put' : send_error consumer_error none s.errors ≡ some errors =
          subst
            (λ (x : Option LifecycleError).
              send_error consumer_error (Option.map lifecycle_text x) s.errors ≡ some errors)
            fine put in
        ground (arith, put') in
      record {
        unused = λ e. absurd (ground (arith, e));
        silent = λ e. rw (← same) (i.silent e);
        sent = rw (← same) i.sent;
        reported = i.reported;
      }
  step-IsRun s t i (consumer_panicked live waits bad) = record {
    unused = i.unused;
    silent = i.silent;
    sent = i.sent;
    reported = λ x e. absurd (ground (arith, e));
  }
  step-IsRun s t i (woke asleep) = record {
    unused = i.unused;
    silent = i.silent;
    sent = i.sent;
    reported = λ x e. absurd (ground (arith, e));
  }
  step-IsRun s t i (received e errors ready held) = elim i.sent [
    | inl none_sent ↦ absurd (ground (arith, none_sent, held))
    | inr (x, known, one_sent) ↦
        let rest : errors ≡ [] = ground (arith, one_sent, held) in
        let same : x ≡ e = ground (arith, one_sent, held) in
        record {
          unused = i.unused;
          silent = λ u. rest;
          sent = inl rest;
          reported = λ y h. subst IsListenError (ground (arith, same, h)) known;
        }
  ]

  Started-IsRun : (k : W) (s : Components Reader W) → Started new_reader close config k s → IsRun s
  Started-IsRun k s began = record {
    unused = λ e. refl;
    silent = λ e. refl;
    sent = inl refl;
    reported = λ t e. absurd (ground (arith, e));
  }
  Started-IsRun k s (stepped {s = old} r step) = step-IsRun old s (Started-IsRun k old r) step

  room :
      (component : Text) (err : Option Text) (errors : List Text)
      → length errors ≤ 1
      → is_some (send_error component err errors) ≡ true
  unfolding send_error
  room component none errors le = refl
  room component (some e) errors le = ground (arith, le)

  few : (s : Components Reader W) → IsRun s → length s.errors ≤ 1
  few s i = elim i.sent [ inl e ↦ rw e (omega arith) | inr (x, known, e) ↦ rw e (omega arith) ]

  reports :
      (m : Stage)
      → ((t : Text) → m ≡ fatal t → IsListenError t)
      → (fatal_error m ≡ none) ⊎ ((t : Text) × IsListenError t × (m ≡ fatal t))
  reports sleeping known = inl refl
  reports selecting known = inl refl
  reports crashed known = inl refl
  reports (fatal t) known = inr (t, known t refl, refl)

  -- From the start of the two goroutines on, in any order of their ends and of the steps of
  -- `main`, and whatever `ListenAndServe` returns: `main` has not ended the process by an error,
  -- or did so with the error of a listener that failed; and the channel always has room for an
  -- error.
  pub Started-IsListenError :
      (k : W) (s : Components Reader W) (component : Text) (err : Option Text)
      → Started new_reader close config k s
      → ((fatal_error s.main ≡ none) ⊎ ((t : Text) × IsListenError t × (s.main ≡ fatal t)))
        × (is_some (send_error component err s.errors) ≡ true)
  Started-IsListenError k s component err r =
      let i = Started-IsRun k s r in
      (reports s.main i.reported, room component err s.errors (few s i))
