-- ===== src/Store/File/Mirrored.antt =====
-- Sequences of calls of a `FileRuntimeStore` and of a `MemoryRuntimeStore`
-- (src/openlinker/runtime/store.py), side by side.
use mathlib.Core.Path.{fun_ext}
use openlinker_python.Prelude.{
  ◌≡◌, refl, ap, ◌∙◌, inl, inr, none, some, List, [], ◌∷◌, Bool, true, false, arith, Option-cases,
  all_of,
}
use openlinker_python.Platform.{Platform}
use openlinker_python.Errors.{Error, err, store_poisoned, Result-cases}
use openlinker_python.Store.Memory.{memory_ready, close}
use openlinker_python.Store.Methods as memory
use openlinker_python.Store.Reach as reached
use openlinker_python.Store.Reach.{
  Call, after_calls, creates, advances, deletes, appends, acks, stores, settles, clears, discards,
  closes,
}
use openlinker_python.Store.File.{Device, FileStore, ready_unless, file_ready}
use openlinker_python.Store.File.Methods as file
use openlinker_python.Store.File.Reach.{after}
use openlinker_python.Store.File.Ready.{after-not_ready}
use openlinker_python.Store.File.Refines.{ready_unless-none}
use openlinker_python.Store.File.Mirror.{
  create-Refines, advance-Refines, delete-Refines, append-Refines, ack-Refines, settle-Refines,
  clear-Refines, discard-Refines,
}

-- a call of any method but `store_result`
abbrev pub is_mirrored : Call → Bool
is_mirrored (stores a payload id t u) = false
is_mirrored _ = true

module _ ⦃p : Platform⦄ where
  module _ (device : Device) where
    unfoldable pub after_file_calls : FileStore → List Call → FileStore
    after_file_calls s [] = s
    after_file_calls s (c ∷ cs) = after_file_calls (after device s c) cs

    after_mirrored :
        (s : FileStore) (c : Call)
        → is_mirrored c ≡ true
        → s.poisoned ≡ none
        → (after device s c).poisoned ≡ none
        → (after device s c).memory ≡ reached.after s.memory c
    unfolding after reached.after close file.close
    after_mirrored s c mirrored live h =
        let same : ready_unless s.poisoned ≡ memory_ready =
          ap ready_unless live ∙ fun_ext ready_unless-none in
        elim c
            as (λ c.
              is_mirrored c ≡ true
              → (after device s c).poisoned ≡ none
              → (after device s c).memory ≡ reached.after s.memory c) [
                | creates r now ↦ λ m h.
                    create-Refines device s r now
                    ∙ ap (λ ready. (memory.create_assignment ready r now s.memory).1) same
                | advances m state now ↦ λ i h.
                    advance-Refines device s m state now
                    ∙ ap (λ ready. (memory.advance_assignment ready m state now s.memory).1) same
                | deletes m ↦ λ i h.
                    delete-Refines device s m h
                    ∙ ap (λ ready. (memory.delete_assignment ready m s.memory).1) same
                | appends a kind payload id t u ↦ λ i h.
                    append-Refines device s a kind payload id t u h
                    ∙ ap (λ ready. (memory.append_event ready a kind payload id t u s.memory).1)
                        same
                | acks a id seq now ↦ λ i h.
                    ack-Refines device s a id seq now
                    ∙ ap (λ ready. (memory.ack_event ready a id seq now s.memory).1) same
                | stores a payload id t u ↦ λ i h. absurd (ground arith)
                | settles a id now ↦ λ i h.
                    settle-Refines device s a id now h
                    ∙ ap (λ ready. (memory.ack_result ready a id now s.memory).1) same
                | clears a ↦ λ i h.
                    clear-Refines device s a h
                    ∙ ap (λ ready. (memory.clear_terminal_events ready a s.memory).1) same
                | discards a ↦ λ i h.
                    discard-Refines device s a h
                    ∙ ap (λ ready. (memory.discard_terminal_spool ready a s.memory).1) same
                | closes ↦ λ i h. refl
              ]
          mirrored h

    pub not_ready :
        (e : Error) (s : FileStore) → s.poisoned ≡ some e → (d : Error) × (file_ready s ≡ err d)
    unfolding ready_unless
    not_ready e s h = elim (Result-cases (memory_ready s.memory)) [
      | inl (u, g) ↦ (store_poisoned, rw (g, h) refl)
      | inr (d, g) ↦ (d, rw g refl)
    ]

    after-poisoned :
        (s : FileStore) (c : Call) (e : Error)
        → s.poisoned ≡ some e
        → (after device s c).poisoned ≡ some e
    after-poisoned s c e h =
        let (d, stuck) = not_ready e s h in
        elim (after-not_ready s d stuck device c) [
          | inl same ↦ rw same h
          | inr last ↦ rw last (unfold after in unfold file.close in h)
        ]

    after_file_calls-poisoned :
        (cs : List Call) (s : FileStore) (e : Error)
        → s.poisoned ≡ some e
        → (after_file_calls s cs).poisoned ≡ some e
    unfolding after_file_calls
    after_file_calls-poisoned [] s e h = h
    after_file_calls-poisoned (c ∷ cs) s e h =
        after_file_calls-poisoned cs (after device s c) e (after-poisoned s c e h)

    -- As long as a store on disk is not poisoned, its records in memory are, after any calls but those of
    -- `store_result`, what a store in memory makes of the same records by the same calls, whether they
    -- return or raise.
    pub after_file_calls-eq :
        (cs : List Call) (s : FileStore)
        → all_of is_mirrored cs ≡ true
        → s.poisoned ≡ none
        → (after_file_calls s cs).poisoned ≡ none
        → (after_file_calls s cs).memory ≡ after_calls s.memory cs
    unfolding after_file_calls all_of
    after_file_calls-eq [] s mirrored live h = refl
    after_file_calls-eq (c ∷ cs) s mirrored live h =
        elim (Option-cases (after device s c).poisoned) [
          | inr (e, stuck) ↦
              let stays = after_file_calls-poisoned cs (after device s c) e stuck in
              absurd (ground arith)
          | inl alive ↦
              after_file_calls-eq cs (after device s c) (ground arith) alive h
              ∙ ap (λ m. after_calls m cs) (after_mirrored s c (ground arith) live alive)
        ]
