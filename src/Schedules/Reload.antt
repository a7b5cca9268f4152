-- ===== src/Schedules/Reload.antt =====
-- The schedule file while calls overlap: what a fresh start loads is what the store held
-- (crates/gateway/src/runtime/schedules/store.rs). A call changes the map under its write lock, and
-- `persist` takes the lock for reading and keeps it until its write has ended; a call is taken to
-- run to its end.
use serial_agent.Prelude.{
  ◌+◌, ◌++◌, ◌⊎◌, none, some, ℕ, ◌≡◌, refl, sym, ap, subst, or-none, ◌∙◌, inl, inr, true, List, [],
  ◌∷◌, arith, if◌then◌else◌, eqb_iff, nat_eq, Map, get, insert, get-insert, All, or, Bytes,
  HasDistinctKeys,
}
use serial_agent.Schedules.{Schedule}
use serial_agent.Schedules.Cron.{Calendar}
use serial_agent.Schedules.Store.{
  ScheduleStore, ScheduleJson, snapshot, write_file, load, parsed, values, by_id, new_store,
  get_schedule,
}
use serial_agent.Schedules.Calls.{OwnIds, IsSound, Call, IsFair, apply, finds, apply-IsSound}

get-by_id :
    (id : ℕ) (m found : Map ℕ Schedule)
    → HasDistinctKeys m
    → OwnIds m
    → get id (by_id (values m) found) ≡ or (get id m) (get id found)
unfolding get values by_id
get-by_id id [] found d own = refl
get-by_id id ((i, s) ∷ m) found d own = ground (
  arith,
  get-by_id id m (insert s.id s found) d.1 own.1,
  get-insert s.id id s found,
  eqb_iff i id,
)

-- The store, the calls that have changed the map and have yet to begin with their `persist`, and
-- the texts that are being written.
pub record Shared : Type 0 where
  pub store : ScheduleStore
  pub pending : ℕ
  pub writing : List Bytes

module _ (c : Calendar) where
  -- What may come next, of calls that may overlap: a change of the map waits for the writes to end;
  -- a `persist` takes the text of the map; and any of the texts is written.
  pub data Step : Shared → Shared → Type 0 where
    changing :
        {s : ScheduleStore} {n : ℕ} (call : Call)
        → IsFair call
        → finds c call s ≡ true
        → Step
            (record { store = s; pending = n; writing = [] })
            (record {
              store = record s { inner = (apply c call s).inner };
              pending = n + 1;
              writing = [];
            })
    beginning :
        {s : ScheduleStore} {n : ℕ} {texts : List Bytes} (text : Bytes)
        → snapshot s ≡ some text
        → Step
            (record { store = s; pending = n + 1; writing = texts })
            (record { store = s; pending = n; writing = text ∷ texts })
    giving_up :
        {s : ScheduleStore} {n : ℕ} {texts : List Bytes}
        → snapshot s ≡ none
        → Step
            (record { store = s; pending = n + 1; writing = texts })
            (record { store = s; pending = n; writing = texts })
    ending :
        {s : ScheduleStore} {n : ℕ} (before after : List Bytes) (text : Bytes)
        → Step
            (record { store = s; pending = n; writing = before ++ text ∷ after })
            (record { store = write_file text s; pending = n; writing = before ++ after })

  pub data Steps : Shared → Shared → Type 0 where
    still : {x : Shared} → Steps x x
    then_ : {x y z : Shared} → Steps x y → Step y z → Steps x z

  -- The text is that of the map.
  abbrev IsText : ScheduleStore → Bytes → Type 0
  IsText s text = snapshot s ≡ some text

  -- The file is that of the map: it is there with its text, or the map has stayed empty.
  abbrev IsWritten : ScheduleStore → Type 0
  IsWritten s =
      ((s.disk ≡ none) × (s.inner ≡ [])) ⊎ ((text : Bytes) × (s.disk ≡ some text) × IsText s text)

  record Agrees (j : ScheduleJson) (x : Shared) : Type 0 where
    same : x.store.json ≡ j
    can_write : x.store.writable ≡ true
    sound : IsSound x.store.inner
    texts : All (IsText x.store) x.writing
    written : x.pending ≡ 0 → x.writing ≡ [] → IsWritten x.store

  middle-All :
      (s : ScheduleStore) (before after : List Bytes) (text : Bytes)
      → All (IsText s) (before ++ text ∷ after)
      → IsText s text × All (IsText s) (before ++ after)
  middle-All s [] after text h = h
  middle-All s (t ∷ before) after text h =
      let (mine, rest) = middle-All s before after text h.1 in (mine, (h.0, rest))

  module _ (j : ScheduleJson)
      (total : (schedules : List Schedule)
        → (text : Bytes) × (j.to_string_pretty schedules ≡ some text)) where
    Step-Agrees : {x y : Shared} → Step x y → Agrees j x → Agrees j y
    unfolding write_file snapshot
    Step-Agrees (changing {s} {n} call fair found) h = record {
      same = h.same;
      can_write = h.can_write;
      sound = apply-IsSound c call s fair h.sound;
      texts = tt;
      written = λ e w. absurd (omega (arith, e));
    }
    Step-Agrees (beginning {s} {n} {texts} text e) h = record {
      same = h.same;
      can_write = h.can_write;
      sound = h.sound;
      texts = (e, h.texts);
      written = λ e w. absurd (ground (arith, w));
    }
    Step-Agrees (giving_up {s} {n} {texts} e) h =
        let (text, there) = total (values s.inner) in
        let clash = sym there ∙ ap (λ k. k.to_string_pretty (values s.inner)) (sym h.same) ∙ e in
        absurd (ground (arith, clash))
    Step-Agrees (ending {s} {n} before after text) h =
        let (mine, rest) = middle-All s before after text h.texts in
        let now : Agrees j (record {
          store = record s { disk = some text };
          pending = n;
          writing = before ++ after;
        }) =
          record {
            same = h.same;
            can_write = h.can_write;
            sound = h.sound;
            texts = rest;
            written = λ e w. inr (text, refl, mine);
          } in
        subst
          (λ b. Agrees j (record {
            store = if b then record s { disk = some text } else s;
            pending = n;
            writing = before ++ after;
          }))
          (sym h.can_write) now

    abbrev pub start : Shared
    start = record { store = new_store j none true; pending = 0; writing = [] }

    start-Agrees : Agrees j start
    unfolding new_store load
    start-Agrees = record {
      same = refl;
      can_write = refl;
      sound = record { distinct = tt; own = tt };
      texts = tt;
      written = λ e w. inl (refl, refl);
    }

    Steps-Agrees : {x y : Shared} → Steps x y → Agrees j x → Agrees j y
    Steps-Agrees still h = h
    Steps-Agrees (then_ before step) h = Step-Agrees step (Steps-Agrees before h)

    -- From an empty store with a file that can be written, whatever calls follow and however they
    -- overlap, once each has ended, a fresh start from the file finds under every id just what the
    -- store holds there. An update through the API is taken to leave the id of its schedule, and
    -- serde_json to write any schedules and to read the ones held at the end back from their text.
    pub get_schedule-new_store :
        (x : Shared) (id : ℕ)
        → Steps start x
        → x.pending ≡ 0
        → x.writing ≡ []
        → ((text : Bytes)
            → j.to_string_pretty (values x.store.inner) ≡ some text
            → j.from_str text ≡ some (values x.store.inner))
        → get_schedule id (new_store j x.store.disk true) ≡ get_schedule id x.store
    unfolding get_schedule new_store load snapshot get
    get_schedule-new_store x id steps ended quiet reads =
        let h = Steps-Agrees steps start-Agrees in
        elim (h.written ended quiet) [
          | inl (no_file, empty) ↦ ap (λ d. get id (load j d)) no_file ∙ ap (get id) (sym empty)
          | inr (text, there, mine) ↦
              let mine' : j.to_string_pretty (values x.store.inner) ≡ some text =
                ap (λ k. k.to_string_pretty (values x.store.inner)) (sym h.same) ∙ mine in
              ap (λ d. get id (load j d)) there
              ∙ ap (λ o. get id (parsed o)) (reads text mine')
              ∙ get-by_id id x.store.inner [] h.sound.distinct h.sound.own
              ∙ or-none (get id x.store.inner)
        ]
