-- ===== src/Graph/FastPath/Deliver.antt =====
-- What is sent in batches: addNextItemInSliceStreamsToBatch on streams that deliver no error.
use mongopenfga.Prelude.{
  ℕ, ◌≡◌, refl, ◌∙◌, sym, subst, inl, inr, Bool-cases, true, false, some, List, [], ◌∷◌, ◌++◌, Text,
  is_key, length, arith, All, text_eq, ltb,
}
use mongopenfga.Regex.{matches}
use mongopenfga.Tuple.{is_valid_object}
use mongopenfga.Storage.Iterators.Defs.{answer}
use mongopenfga.Graph.FastPath.Stream.{Msg, Stream, next_item_in_slice_streams}
use mongopenfga.Graph.FastPath.Merge.{
  Sent, send, flush, send_full, batch_of, append_item, add_next_item_in_slice_streams_to_batch,
  iterator_min_batch_threshold,
}
use mongopenfga.Graph.FastPath.Good.{IsClean, contents}
use mongopenfga.Graph.FastPath.Heads.{firsts, IsReady}
use mongopenfga.Graph.FastPath.Positions.{
  positions, advance, next_item-positions, append_assoc, append_nil,
}

module _ {E : Type 0} where
  -- what is sent is the texts in batches, and no error
  abbrev pub Delivers : Sent E → List Text → Type 0
  Delivers sent items = (ms : List (Msg E)) × (sent ≡ some ms) × IsClean ms × (contents ms ≡ items)

  pub flush-Delivers : (batch : List Text) → Delivers (flush batch) batch
  unfolding flush
  flush-Delivers [] = ([], refl, tt, refl)
  flush-Delivers (x ∷ batch) = (_, refl, (refl, tt), append_nil (x ∷ batch))

  module _ (batch out : List Text) (continue : List Text → Sent E) where
    send_full-sends :
        ltb iterator_min_batch_threshold (length batch) ≡ true
        → send_full batch continue ≡ send (batch_of batch) (continue [])
    unfolding send_full
    send_full-sends h = cc

    send_full-keeps :
        ltb iterator_min_batch_threshold (length batch) ≡ false
        → send_full batch continue ≡ continue batch
    unfolding send_full
    send_full-keeps h = cc

    pub send_full-Delivers :
        ((b : List Text) → Delivers (continue b) (b ++ out))
        → Delivers (send_full batch continue) (batch ++ out)
    send_full-Delivers k = elim (Bool-cases (ltb iterator_min_batch_threshold (length batch))) [
      | inr n ↦ subst (λ sent. Delivers sent (batch ++ out)) (sym (send_full-keeps n)) (k batch)
      | inl y ↦
          let (ms, e, c, m) = k [] in
          (batch_of batch ∷ ms, rw (send_full-sends y, e) refl, (refl, c), rw m refl)
    ]

  module _ (exhausted : E) (streams : List (Stream E)) (batch out : List Text)
      (continue : List Text → List (Stream E) → Sent E) where
    added :
        (indices : List ℕ) {x : Text} {after : List (Stream E)}
        → next_item_in_slice_streams indices [] streams ≡ (answer x, after)
        → add_next_item_in_slice_streams_to_batch exhausted streams indices batch continue
          ≡ send_full (append_item batch x) (λ b. continue b after)
    unfolding add_next_item_in_slice_streams_to_batch
    added indices h = cc

    -- An object goes to the batch.
    pub added-Delivers :
        (indices : List ℕ) (x : Text) (after : List (Stream E))
        → is_valid_object x ≡ true
        → next_item_in_slice_streams indices [] streams ≡ (answer x, after)
        → ((bt : List Text) → Delivers (continue bt after) (bt ++ out))
        → Delivers
            (add_next_item_in_slice_streams_to_batch exhausted streams indices batch continue)
            (batch ++ x ∷ out)
    unfolding matches
    added-Delivers indices [] after v moved k = absurd (ground (arith, v))
    added-Delivers indices (c ∷ b) after v moved k =
        let x = c ∷ b in
        subst (λ sent. Delivers sent (batch ++ x ∷ out)) (sym (added indices moved))
          (subst (Delivers _) (append_assoc batch (x ∷ []) out)
            (send_full-Delivers (batch ++ x ∷ []) out (λ bt. continue bt after) k))

    -- A head that is an object goes to the batch, and the streams that have it are moved.
    pub add-Delivers :
        (b : Text)
        → All IsReady streams
        → is_valid_object b ≡ true
        → is_key b (firsts streams) ≡ true
        → ((bt : List Text) → Delivers (continue bt (advance b streams)) (bt ++ out))
        → Delivers
            (add_next_item_in_slice_streams_to_batch exhausted streams
              (positions b 0 (firsts streams))
              batch
              continue)
            (batch ++ b ∷ out)
    add-Delivers b r v h =
        added-Delivers (positions b 0 (firsts streams)) b (advance b streams) v
          (next_item-positions b [] streams r ∙ rw h refl)
