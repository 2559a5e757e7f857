-- ===== src/Hls/Manager/Cleanup.antt =====
-- Which streams an idle sweep of `MultiplexerManager` removes.
use headendarr.Prelude.{
  ℕ, ◌≡◌, ◌∙◌, refl, List, [], ◌∷◌, none, some, Bool, false, ◌&&◌, keep, ite, if◌then◌else◌, arith,
}
use headendarr.Prelude.Dict.{
  Dict, Key, get, set, Distinct, get-pop, get-set_self, set-Distinct, pop-Distinct,
}
use headendarr.Hls.Multiplexer.{Stream}
use headendarr.Hls.Manager.{
  Mode, ffmpeg, start, get_stream, stop_entry, stop_entries, cleanup_idle_streams, is_idle,
  new_stream,
}

module _ {K C : Type 0} ⦃of_key : Key K⦄ where
  stop_entry-get :
      (active : Dict K (Stream C)) (key k : K) (s : Stream C)
      → Distinct active
      → get k (stop_entry active (key, s))
        ≡ (if s.running then ite (of_key.same key k) none (get k active) else get k active)
  unfolding stop_entry
  stop_entry-get active key k s d = ground (arith, get-pop key k active d)

  stop_entry-Distinct :
      (active : Dict K (Stream C)) (e : K × Stream C)
      → Distinct active
      → Distinct (stop_entry active e)
  unfolding stop_entry
  stop_entry-Distinct active (key, s) d = ground (arith, pop-Distinct key active d)

  -- After the sweep over some entries a key is gone if a running stream of it was among them.
  stop_entries-get :
      (active : Dict K (Stream C)) (entries : List (K × Stream C)) (k : K)
      → Distinct active
      → Distinct entries
      → get k (stop_entries active entries) ≡ elim (get k entries) [
        | none ↦ get k active
        | some s ↦ if s.running then none else get k active
      ]
  unfolding stop_entries get
  stop_entries-get active [] k d e = refl
  stop_entries-get active ((key, s) ∷ entries) k d e = ground (
    arith,
    stop_entries-get (stop_entry active (key, s)) entries k (stop_entry-Distinct active (key, s) d)
        e.1,
    stop_entry-get active key k s d,
  )

  get-keep :
      (test : Stream C → Bool) (active : Dict K (Stream C)) (k : K)
      → Distinct active
      → (get k (keep (λ e. test e.1) active)
          ≡ elim (get k active) [ none ↦ none | some s ↦ if test s then some s else none ])
        × Distinct (keep (λ e. test e.1) active)
  unfolding get
  get-keep test [] k d = (refl, tt)
  get-keep test ((key, s) ∷ active) k d =
      ground (arith, get-keep test active k d.1, get-keep test active key d.1)

  -- A sweep removes the streams that run and have been idle for longer than the timeout, and no
  -- others: an idle stream that does not run stays.
  pub cleanup_idle_streams-get :
      (active : Dict K (Stream C)) (now idle_timeout : ℕ) (k : K)
      → Distinct active
      → get k (cleanup_idle_streams active now idle_timeout) ≡ elim (get k active) [
        | none ↦ none
        | some s ↦ if is_idle now idle_timeout s && s.running then none else some s
      ]
  unfolding cleanup_idle_streams
  cleanup_idle_streams-get active now idle_timeout k d =
      let idle = λ (s : Stream C). is_idle now idle_timeout s in
      let g = get-keep idle active k d in
      ground (arith, g.0, stop_entries-get active (keep (λ e. idle e.1) active) k d g.1)

  pub get_stream-miss :
      (active : Dict K (Stream C)) (key : K) (mode : Mode) (spawned : Bool) (limit now : ℕ)
      → get key active ≡ none
      → let s = start (new_stream limit now) mode spawned in
        get_stream active key mode spawned limit now ≡ (s, set key s active)
  unfolding get_stream
  get_stream-miss active key mode spawned limit now n = ground arith

  pub get_stream-hit :
      (active : Dict K (Stream C)) (key : K) (mode : Mode) (spawned : Bool) (limit now : ℕ)
      (s : Stream C)
      → get key active ≡ some s
      → get_stream active key mode spawned limit now ≡ (s, active)
  unfolding get_stream
  get_stream-hit active key mode spawned limit now s e = ground arith

  -- Where ffmpeg cannot be spawned, the stream that does not run is remembered: a later request for
  -- the same key, even when ffmpeg could be spawned by then, gets that stream, and no sweep in
  -- between, however late, removes it.
  pub get_stream-failed_forever :
      (active : Dict K (Stream C)) (key : K) (again : Bool) (limit now later idle_timeout : ℕ)
      → Distinct active
      → get key active ≡ none
      → let (failed, remembered) = get_stream active key ffmpeg false limit now in
        let swept = cleanup_idle_streams remembered later idle_timeout in
        (failed.running ≡ false) × ((get_stream swept key ffmpeg again limit later).0 ≡ failed)
  unfolding start new_stream
  get_stream-failed_forever active key again limit now later idle_timeout d n =
      let failed : Stream C = start (new_stream limit now) ffmpeg false in
      let remembered = set key failed active in
      let kept : get key (cleanup_idle_streams remembered later idle_timeout) ≡ some failed =
        cleanup_idle_streams-get remembered later idle_timeout key
          (set-Distinct key failed active d)
        ∙ (rw (get-set_self key failed active) (ground arith)) in
      rw (get_stream-miss active key ffmpeg false limit now n) (
        refl,
        rw (
            get_stream-hit (cleanup_idle_streams remembered later idle_timeout) key ffmpeg again
              limit later failed kept),
      )
