-- ===== src/Memory/Observed.antt =====
-- internal/service/memory.go: what AddUserMemory and Observe leave in the table.
use astra_backend.Prelude.{
  Has, All, take, ◌∙◌, text_eq_iff, ℕ, suc, ◌+◌, ◌≤◌, ◌<◌, ◌≡◌, refl, sym, subst, inl, inr, Bool,
  true, false, Option, none, some, List, [], ◌∷◌, arith, Text, lit, is_empty, trim_space, ltb, leb,
  if◌then◌else◌, take_runes, rune_count, Has-All,
}
use astra_backend.Store.{store_failure, Result, ok, err, World, Call, pure, ◌>>=◌, attempt}
use astra_backend.Store.Laws.{Ends, attempt_step, bind_step}
use astra_backend.Memory.{ChatMemory, Memories, with_defaults, refreshed, upsert, set_summary}
use astra_backend.Memory.Rows.{IsKept, IsClean, observed_row-IsFact, rune_count-take_runes}
use astra_backend.Memory.Sound.{IsFact, IsSound}
use astra_backend.Memory.Grows.{Grows, Grows-trans, upsert-Ends, set_summary-Ends}
use astra_backend.Memory.Service.{
  Model, ExtractedMemory, Extraction, observed_row, observe_each, observe_summary, observe, extract,
}

module _ (now user_id : ℕ) (before : Memories) (offered : List ExtractedMemory) where
  -- With `n` rows more so far.
  abbrev Saw : ℕ → Memories → Type 0
  Saw n t = Grows (IsClean offered) n user_id before t

  Saw-mono : (n k : ℕ) (t : Memories) → n ≤ k → Saw n t → Saw k t
  Saw-mono n k t le h = (h.0, (h.1.0, omega (arith, h.1.1), h.1.2), h.2)

  abbrev Observes : ℕ → Result (Unit {0}) × World Memories → Type 0
  Observes n = Ends (λ _ t. Saw n t) (λ _ _. ⊥)

  observe_each-Ends :
      (ms : List ExtractedMemory) (kept : ℕ) (w : World Memories)
      → All (λ m. Has m offered) ms
      → kept < 6
      → Saw kept w.tables
      → Observes 6 (observe_each now user_id ms kept w)
  unfolding observe_each pure with_defaults refreshed
  observe_each-Ends [] kept w from lt h = Saw-mono kept 6 w.tables (omega arith) h
  observe_each-Ends (m ∷ ms) kept w from lt h =
      each (observed_row user_id m) refl (λ k w'. observe_each-Ends ms k w' from.1)
    where
      each :
          (o : Option ChatMemory)
          → observed_row user_id m ≡ o
          → ((k : ℕ) (w' : World Memories)
              → k < 6
              → Saw k w'.tables
              → Observes 6 (observe_each now user_id ms k w'))
          → Observes 6 (
              let call : Call Memories (Unit {0}) = elim o [
                | none ↦ observe_each now user_id ms kept
                | some row ↦ attempt (upsert now row) >>= λ r. elim r [
                  | err e ↦ observe_each now user_id ms kept
                  | ok _ ↦
                      if leb 6 (suc kept) then pure tt else observe_each now user_id ms (suc kept)
                ]
              ] in
              call w)
      each none e rest = rest kept w lt h
      each (some row) e rest =
          attempt_step (λ _ t. Grows (IsClean offered) 1 row.user_id w.tables t)
            (λ e t. (e ≡ store_failure) × (t ≡ w.tables)) (Observes 6) (upsert now row) _ w
            (upsert-Ends (IsClean offered) now w h.0 row fact.0 (λ id. inr (m, from.0, fact.2))
              (λ x same.
                let key : x.key_norm ≡ row.key_norm =
                  (text_eq_iff x.key_norm row.key_norm).0 (ground arith) in
                inr (m, from.0, (fact.2.0, fact.2.1, fact.2.2, fact.2.3, key ∙ fact.2.4))))
            (λ u w' made. more (leb 6 (suc kept)) refl w' made)
            (λ e' w' lost. rest kept w' lt (subst (Saw kept) (sym lost.1) h))
        where
          fact : IsFact row × (row.user_id ≡ user_id) × IsKept m row
          fact = observed_row-IsFact user_id m row e

          more :
              (b : Bool)
              → leb 6 (suc kept) ≡ b
              → (w' : World Memories) → Grows (IsClean offered) 1 row.user_id w.tables w'.tables
              → Observes 6 ((if b then pure tt else observe_each now user_id ms (suc kept)) w')
          more b e' w' made = go b e'
            where
              seen : Saw (kept + 1) w'.tables
              seen =
                  Grows-trans (IsClean offered) kept 1 user_id before w.tables w'.tables h
                    (subst (λ (u : ℕ). Grows (IsClean offered) 1 u w.tables w'.tables) fact.1 made)

              go :
                  (b : Bool)
                  → leb 6 (suc kept) ≡ b
                  → Observes 6 ((if b then pure tt else observe_each now user_id ms (suc kept)) w')
              go true e'' = Saw-mono (kept + 1) 6 w'.tables (omega arith) seen
              go false e'' =
                  rest (suc kept) w' (ground arith)
                    (Saw-mono (kept + 1) (suc kept) w'.tables (omega arith) seen)

  observe_summary-Ends :
      (prior given : Text) (w : World Memories)
      → Saw 6 w.tables
      → Observes 7 (observe_summary now user_id prior given w)
  unfolding observe_summary pure
  observe_summary-Ends prior given w h = split _
    where
      summary : Text
      summary = trim_space given

      kept : Text
      kept = if ltb 600 (rune_count summary) then take_runes 600 summary else summary

      short : rune_count kept ≤ 600
      short = cut (ltb 600 (rune_count summary)) refl
        where
          cut :
              (b : Bool)
              → ltb 600 (rune_count summary) ≡ b
              → rune_count (if b then take_runes 600 summary else summary) ≤ 600
          cut true e = rune_count-take_runes 600 summary
          cut false e = ground arith

      split :
          (b : Bool)
          → Observes 7
              ((if b then pure tt else attempt (set_summary now user_id kept) >>= λ _. pure tt) w)
      split true = Saw-mono 6 7 w.tables (omega arith) h
      split false =
          attempt_step (λ _ t. Grows (IsClean offered) 1 user_id w.tables t)
            (λ e t. (e ≡ store_failure) × (t ≡ w.tables)) (Observes 7)
            (set_summary now user_id kept) (λ _. pure tt) w
            (set_summary-Ends (IsClean offered) now w h.0 user_id kept (λ id. inl (refl, short))
              (λ x e. inl (e, short)))
            (λ u w' made.
              Grows-trans (IsClean offered) 6 1 user_id before w.tables w'.tables h made)
            (λ e w' lost. subst (Saw 7) (sym lost.1) (Saw-mono 6 7 w.tables (omega arith) h))

abbrev memories_of : Result Extraction → List ExtractedMemory
memories_of (err e) = []
memories_of (ok ext) = ext.memories

abbrev given_by : Model → Text → Text → Text → Option (Text → Option Text) → List ExtractedMemory
given_by model user_msg assistant_msg prior none = []
given_by model user_msg assistant_msg prior (some complete) =
    memories_of (extract complete model.unmarshal (trim_space user_msg) assistant_msg prior)

-- The memories in what the model answers.
unfoldable pub extracted : Model → Text → Text → Text → List ExtractedMemory
extracted model user_msg assistant_msg prior =
    given_by model user_msg assistant_msg prior model.complete

-- Whatever the model answers and whichever statements fail, Observe returns without an error and keeps
-- the table sound: other users' memories stay, at most seven rows are added, six facts and a summary,
-- and each row that was not there before is a summary of at most 600 runes, or the text of one of the
-- memories that the model gave, of at most 300 runes, where neither text nor key looks private.
pub observe-Ends :
    (model : Model) (now user_id : ℕ) (user_msg assistant_msg prior : Text) (w : World Memories)
    → IsSound w.tables
    → Ends
        (λ _ t. Grows (IsClean (extracted model user_msg assistant_msg prior)) 7 user_id w.tables t)
        (λ _ _. ⊥)
        (observe model now user_id user_msg assistant_msg prior w)
unfolding observe pure extracted
observe-Ends model now user_id user_msg assistant_msg prior w sound = answered model.complete
  where
    same :
        (given : List ExtractedMemory) (n : ℕ) → Grows (IsClean given) n user_id w.tables w.tables
    same given n = (sound, (refl, omega arith, refl), Has-All _ w.tables.rows (λ m h. inl h))

    read :
        (r : Result Extraction)
        → Ends
            (λ _ t. Grows (IsClean (memories_of r)) 7 user_id w.tables t)
            (λ _ _. ⊥)
            (let call : Call Memories (Unit {0}) = elim r [
              | err e ↦ pure tt
              | ok ext ↦ observe_each now user_id ext.memories 0 >>= λ _.
                  observe_summary now user_id prior ext.summary
            ] in
              call w)
    read (err e) = same [] 7
    read (ok ext) =
        bind_step (λ _ t. Grows (IsClean ext.memories) 6 user_id w.tables t) (λ _ _. ⊥)
          (Ends (λ _ t. Grows (IsClean ext.memories) 7 user_id w.tables t) (λ _ _. ⊥))
          (observe_each now user_id ext.memories 0)
          (λ _. observe_summary now user_id prior ext.summary) w
          (observe_each-Ends now user_id w.tables ext.memories ext.memories 0 w
            (Has-All _ ext.memories (λ m h. h)) (omega arith) (same ext.memories 0))
          (λ u w' h. observe_summary-Ends now user_id w.tables ext.memories prior ext.summary w' h)
          (λ e w' lost. absurd lost)

    heard :
        (b : Bool) (r : Result Extraction)
        → Ends
            (λ _ t. Grows (IsClean (memories_of r)) 7 user_id w.tables t)
            (λ _ _. ⊥)
            (let call : Call Memories (Unit {0}) = if b then pure tt else elim r [
              | err e ↦ pure tt
              | ok ext ↦ observe_each now user_id ext.memories 0 >>= λ _.
                  observe_summary now user_id prior ext.summary
            ] in
              call w)
    heard true r = same (memories_of r) 7
    heard false r = read r

    answered :
        (o : Option (Text → Option Text))
        → Ends
            (λ _ t.
              Grows (IsClean (given_by model user_msg assistant_msg prior o)) 7 user_id w.tables t)
            (λ _ _. ⊥)
            (let call : Call Memories (Unit {0}) = elim o [
              | none ↦ pure tt
              | some complete ↦
                  if is_empty (trim_space user_msg)
                  then pure tt
                  else elim (extract complete model.unmarshal
                      (trim_space user_msg)
                      assistant_msg
                      prior) [
                        | err e ↦ pure tt
                        | ok ext ↦ observe_each now user_id ext.memories 0 >>= λ _.
                            observe_summary now user_id prior ext.summary
                      ]
            ] in
              call w)
    answered none = same [] 7
    answered (some complete) = heard (is_empty (trim_space user_msg)) _

-- What a pin says, for good: the text, cut to 400 bytes, marked as the user's own and most salient.
abbrev pub IsPin : Text → ChatMemory → Type 0
IsPin content x = (x.content ≡ take 400 content) × (x.source ≡ lit "user") × (5 ≤ x.salience)
