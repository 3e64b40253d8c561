-- ===== src/Logging/Middleware/Transparency.antt =====
-- What the logging middleware adds to a handler, and what its entries show.
use go_svc_extn.Prelude.{
  ◌≡◌, refl, ap, sym, ◌∙◌, Option, none, some, Bytes, Option-cases, inl, inr, arith,
}
use go_svc_extn.Logging.{Fields, handle_sensitive_data}
use go_svc_extn.Logging.Secrecy.{SameLog, handle_sensitive_data-SameLog}
use go_svc_extn.Logging.Panics.{TypedLog, handle_sensitive_data_ends_iff}
use go_svc_extn.Logging.Middleware.{
  Arg, proto, redacter, stringer, other, Level, info, error, Context, Kind, Entry, Prints, Outcome,
  returned, panicked, extract_args, entry_of, log_reply, log_middleware,
}

-- A print of an argument does not depend on what is secret in a message.
abbrev pub SameArg : Arg → Arg → Type 0
SameArg (proto m) (proto n) = SameLog m n
SameArg (proto m) _ = ⊥
SameArg (redacter s) b = redacter s ≡ b
SameArg (stringer s) b = stringer s ≡ b
SameArg (other s) b = other s ≡ b

module _ {ℓ} {E : Type ℓ} (p : Prints E) where
  extract_args-SameArg :
      (a b : Arg) (s t : Bytes)
      → SameArg a b
      → extract_args p a ≡ some s
      → extract_args p b ≡ some t
      → s ≡ t
  unfolding extract_args
  extract_args-SameArg (proto m) (proto n) s t h e f =
      elim (Option-cases (handle_sensitive_data m)) [
        | inl left ↦ ground arith
        | inr (a, ea) ↦ elim (Option-cases (handle_sensitive_data n)) [
          | inl right ↦ ground arith
          | inr (b, eb) ↦ ground (arith, handle_sensitive_data-SameLog m n a b h ea eb)
        ]
      ]
  extract_args-SameArg (proto m) _ s t h e f = absurd h
  extract_args-SameArg (redacter r) b s t h e f = cc (ap (extract_args p) h)
  extract_args-SameArg (stringer r) b s t h e f = cc (ap (extract_args p) h)
  extract_args-SameArg (other r) b s t h e f = cc (ap (extract_args p) h)

  -- The three cases of the log of a reply.
  log_reply_req :
      (k : Kind) (ctx : Context) (req reply : Arg) (e : Option E)
      → extract_args p req ≡ none
      → log_reply p k ctx req reply e ≡ panicked
  unfolding log_reply
  log_reply_req k ctx req reply e h = rw (h, log_reply)

  log_reply_resp :
      (k : Kind) (ctx : Context) (req reply : Arg) (e : Option E) (s : Bytes)
      → extract_args p req ≡ some s
      → extract_args p reply ≡ none
      → log_reply p k ctx req reply e ≡ panicked
  unfolding log_reply
  log_reply_resp k ctx req reply e s h g = rw (h, g, log_reply)

  log_reply_done :
      (k : Kind) (ctx : Context) (req reply : Arg) (e : Option E) (s t : Bytes)
      → extract_args p req ≡ some s
      → extract_args p reply ≡ some t
      → log_reply p k ctx req reply e ≡ returned reply e (entry_of p k ctx e s t)
  unfolding log_reply
  log_reply_done k ctx req reply e s t h g = rw (h, g, log_reply)

  -- An entry tells how the prints were made.
  pub log_reply-returned :
      (k : Kind) (ctx : Context) (req reply r : Arg) (e f : Option E) (n : Entry)
      → log_reply p k ctx req reply e ≡ returned r f n
      → (s : Bytes) × (t : Bytes) × (extract_args p req ≡ some s)
        × (extract_args p reply ≡ some t)
        × (n ≡ entry_of p k ctx e s t)
        × (r ≡ reply)
        × (f ≡ e)
  log_reply-returned k ctx req reply r e f n h = elim (Option-cases (extract_args p req)) [
    | inl left ↦ absurd (cc (log_reply_req k ctx req reply e left))
    | inr (s, es) ↦ elim (Option-cases (extract_args p reply)) [
      | inl right ↦ absurd (cc (log_reply_resp k ctx req reply e s es right))
      | inr (t, et) ↦
          let same : returned r f n ≡ returned reply e (entry_of p k ctx e s t) =
            cc (log_reply_done k ctx req reply e s t es et) in
          (s, t, es, et, cc, cc, cc)
    ]
  ]

  -- Two runs of the middleware that both return, so neither panics, on requests that differ only in what
  -- is secret in them, log one entry, if the handler's replies differ only so too and its errors are
  -- equal.
  pub log_middleware-SameArg {κ} :
      {W : Type κ} (k : Kind) (handler : Context → Arg → W → Arg × Option E × W) (ctx : Context)
      (a b : Arg) (v w : W) (r s : Arg) (e f : Option E) (m n : Entry)
      → SameArg a b
      → SameArg (handler ctx a v).0 (handler ctx b w).0
      → (handler ctx a v).1 ≡ (handler ctx b w).1
      → (log_middleware p k handler ctx a v).0 ≡ returned r e m
      → (log_middleware p k handler ctx b w).0 ≡ returned s f n
      → m ≡ n
  unfolding log_middleware
  log_middleware-SameArg k handler ctx a b v w r s e f m n req reply same left right =
      let (s1, t1, p1, q1, m1, _, _) = log_reply-returned k ctx a _ r _ e m left in
      let (s2, t2, p2, q2, m2, _, _) = log_reply-returned k ctx b _ s _ f n right in
      let reqs = extract_args-SameArg a b s1 s2 req p1 p2 in
      let replies = extract_args-SameArg _ _ t1 t2 reply q1 q2 in cc

  pub level_of : Option E → Level
  level_of none = info
  level_of (some e) = error

  entry_of-level :
      (k : Kind) (ctx : Context) (e : Option E) (s t : Bytes)
      → (entry_of p k ctx e s t).level ≡ level_of e
  unfolding entry_of level_of
  entry_of-level k ctx none s t = refl
  entry_of-level k ctx (some e) s t = refl

  -- The middleware leaves the world as the handler does, and where it does not panic it returns the
  -- handler's reply and error, and logs at level error exactly if there is an error.
  pub log_middleware_transparent {κ} :
      {W : Type κ} (k : Kind) (handler : Context → Arg → W → Arg × Option E × W) (ctx : Context)
      (a : Arg) (w : W) (r : Arg) (e : Option E) (n : Entry)
      → (log_middleware p k handler ctx a w).0 ≡ returned r e n
      → ((log_middleware p k handler ctx a w).1 ≡ (handler ctx a w).2)
        × (r ≡ (handler ctx a w).0)
        × (e ≡ (handler ctx a w).1)
        × (n.level ≡ level_of e)
  unfolding log_middleware
  log_middleware_transparent k handler ctx a w r e n h =
      let (s, t, _, _, made, same_reply, same_error) = log_reply-returned k ctx a _ r _ e n h in
      (
        refl,
        same_reply,
        same_error,
        ap (λ (x : Entry). x.level) made
            ∙ entry_of-level k ctx (handler ctx a w).1 s t
            ∙ ap level_of (sym same_error),
      )

  extract_args-TypedLog : (m : Fields) (s : Bytes) → extract_args p (proto m) ≡ some s → TypedLog m
  unfolding extract_args
  extract_args-TypedLog m s e = elim (Option-cases (handle_sensitive_data m)) [
    | inl left ↦ absurd (ground arith)
    | inr (clone, done) ↦ (handle_sensitive_data_ends_iff m).0 (clone, done)
  ]

  log_reply_bad :
      (k : Kind) (ctx : Context) (req : Arg) (m : Fields) (e : Option E)
      → ¬ (TypedLog m)
      → log_reply p k ctx req (proto m) e ≡ panicked
  log_reply_bad k ctx req m e bad = elim (Option-cases (extract_args p req)) [
    | inl left ↦ log_reply_req k ctx req (proto m) e left
    | inr (s, es) ↦ elim (Option-cases (extract_args p (proto m))) [
      | inl right ↦ log_reply_resp k ctx req (proto m) e s es right
      | inr (t, et) ↦ absurd (bad (extract_args-TypedLog m t et))
    ]
  ]

  -- Where the reply is a message with a field, at any depth, that is marked `mask` and is no string,
  -- the middleware panics when the handler has already run and changed the world.
  pub log_middleware_panics {κ} :
      {W : Type κ} (k : Kind) (handler : Context → Arg → W → Arg × Option E × W) (ctx : Context)
      (a : Arg) (w : W) (m : Fields)
      → (handler ctx a w).0 ≡ proto m
      → ¬ (TypedLog m)
      → log_middleware p k handler ctx a w ≡ (panicked, (handler ctx a w).2)
  unfolding log_middleware
  log_middleware_panics k handler ctx a w m reply bad =
      ap (λ (o : Outcome E). (o, (handler ctx a w).2))
        (rw reply (log_reply_bad k ctx a m (handler ctx a w).1 bad))
