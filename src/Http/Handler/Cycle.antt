-- ===== src/Http/Handler/Cycle.antt =====
-- src/http and src/cache: an image that was streamed to a client as a MISS, and saved, is a HIT.
use scalpel.Common.{
  ℕ, Str, Bytes, true, false, List, [], ◌∷◌, ◌++◌, codes, some, ◌≡◌, refl, ap, ◌∙◌,
}
use scalpel.Utils.{SystemTime}
use scalpel.Cache.Key.{ImageKey}
use scalpel.Cache.Entry.{ImageEntry, MimeApi, get_mime}
use scalpel.Cache.Entry
use scalpel.Cache.Api.{ImageCache, IsStore}
use scalpel.Http.Api.{HttpRequest}
use scalpel.State.{Env, SaveTask, GlobalState}
use scalpel.Http.Chunked
use scalpel.Http.Chunked.{Answer, poll_all, drop, run_task}
use scalpel.Http.Chunked.Body.{drop-poll_all, has_error, received, completed}
use scalpel.Http.Handler.{
  HttpResponse, content_type, etag, other, bytes, World, response_from_cache,
}
use scalpel.Http.Handler.Hit.{sent, HasTag, tag_of, response_from_cache-IsHit}

module _ (env : Env) (store : IsStore env.sha env.engine) where
  -- The state in which a body ends that was polled for `answers`.
  abbrev pub ended :
      {E : Type 0}
      → List (Answer E)
      → ImageKey
      → MimeApi.Mime env.mime
      → ℕ
      → GlobalState env
      → GlobalState env
  ended answers key m size_hint gs =
      drop env (poll_all env answers (Chunked.new env key m size_hint)).1 gs

  -- The save that it spawns.
  abbrev pub task_of :
      {E : Type 0} → List (Answer E) → ImageKey → MimeApi.Mime env.mime → SaveTask env
  task_of answers key m = record { key = key; mime_type = m; bytes = received answers }

  ended_well :
      {E : Type 0} (answers : List (Answer E)) (key : ImageKey) (m : MimeApi.Mime env.mime)
      (size_hint : ℕ) (gs : GlobalState env)
      → has_error answers ≡ false
      → ended answers key m size_hint gs ≡ completed env key m (received answers) gs
  ended_well answers key m size_hint gs good =
      drop-poll_all env answers key m size_hint gs ∙ rw good refl

  get_mime-new :
      (m : MimeApi.Mime env.mime) (b : Bytes) (now : SystemTime)
      → get_mime env.mime (Entry.new env.sha b (MimeApi.to_string env.mime m) now) ≡ m
  unfolding get_mime Entry.new
  get_mime-new m b now = rw (MimeApi.round_trip env.mime m) refl

  bytes-new :
      (b : Bytes) (mime_type : Str) (now : SystemTime)
      → (Entry.new env.sha b mime_type now).bytes ≡ b
  unfolding Entry.new
  bytes-new b mime_type now = refl

  -- With an engine that keeps the trait's promise: when the body of a MISS ends without an error
  -- of the upstream, one save is spawned. If it runs and succeeds, and the cache then finds the
  -- key, a later request that does not list the image's tag is answered with the bytes that the
  -- first client received, under the content type that the upstream gave.
  pub hit_after_miss :
      {E : Type 0} (answers : List (Answer E)) (key : ImageKey) (m : MimeApi.Mime env.mime)
      (size_hint : ℕ) (gs : GlobalState env) (now : SystemTime) (req : HttpRequest env.http)
      (worlds : ℕ → World env) {c c' : ImageCache.Cache env.engine} {image : ImageEntry}
      → has_error answers ≡ false
      → ImageCache.save env.engine now key
          (MimeApi.to_string env.mime m)
          (received answers)
          gs.cache
        ≡ (true, c)
      → ImageCache.load env.engine key c ≡ (some image, c')
      → ¬ HasTag env req image
      → ((ended answers key m size_hint gs).tasks ≡ gs.tasks ++ task_of answers key m ∷ [])
        × (res : HttpResponse env) × (gs' : GlobalState env) × (response_from_cache env req key
              worlds
              (run_task env now (task_of answers key m) (ended answers key m size_hint gs))
            ≡ some (res, gs'))
        × (res.status ≡ 200)
        × (res.body ≡ bytes (received answers))
        × (res.headers
            ≡ content_type m
              ∷ etag (tag_of env image)
              ∷ other (codes "Vary") (codes "Accept-Encoding")
              ∷ [])
  unfolding run_task
  hit_after_miss answers key m size_hint gs now req worlds {c} {c'} {image} good saved found lacks =
      let well = ended_well answers key m size_hint gs good in
      let after = run_task env now (task_of answers key m) (ended answers key m size_hint gs) in
      let cached : after.cache ≡ c =
        ap
          (λ g.
            (ImageCache.save env.engine now key (MimeApi.to_string env.mime m) (received answers)
              (GlobalState.cache g)).1)
          well
        ∙ ap (λ r. r.1) saved in
      let same =
        IsStore.load-save store now key (MimeApi.to_string env.mime m) (received answers) saved
          (ap (λ r. r.0) found) in
      let (res, gs', run, hit) =
        response_from_cache-IsHit env req key worlds after
          (ap (ImageCache.load env.engine key) cached ∙ found) in
      let (status, body, _) = sent env hit lacks in
      (
        ap (λ g. GlobalState.tasks g) well,
        res,
        gs',
        run,
        status,
        body ∙ ap bytes (ap (λ e. ImageEntry.bytes e) same ∙ bytes-new (received answers) _ now),
        hit.typed
            ∙ ap
                (λ t.
                  content_type t
                  ∷ etag (tag_of env image)
                  ∷ other (codes "Vary") (codes "Accept-Encoding")
                  ∷ [])
                (ap (get_mime env.mime) same ∙ get_mime-new m (received answers) now),
      )
