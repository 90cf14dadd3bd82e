-- ===== src/Uploads/Roundtrip.antt =====
-- Proofs about `append` and `assemble` of src/uploads.rs.
use seiza_server.Base.{
  ℕ, ◌+◌, ◌^◌, ◌<◌, ◌≡◌, ◌≢◌, refl, sym, ◌∙◌, inl, inr, Option, some, List, [], ◌∷◌, ◌++◌, arith,
  Text, ◌==◌, length, Bool-cases,
}
use seiza_server.Uploads.Storage.{Bytes, ObjectStore, IsObjectStore, gather}
use seiza_server.Uploads.Session.{
  ResumableUpload, ResumableUploadError, internal, Result, ok, err, Codec, append, new,
}
use seiza_server.Uploads.Reading.{assemble, of_length}
use seiza_server.Uploads.Soundness.{IsSound, append-IsSound, Admitted, append_cases}
use seiza_server.Uploads.Contents.{
  Holds, length-gather, chunk_put-Holds, state_put-Holds, extended-Holds,
}

of_length-ok :
    (size : ℕ) (contents : Bytes)
    → length contents ≡ size
    → of_length size (some contents) ≡ ok contents
of_length-ok size contents h = ground (arith, h)

module _ (o : ObjectStore) {W O : Type 0} where
  module _ (codec : Codec W O) where
    -- An append leaves the upload it started from, and its bytes, in the store, whether it is
    -- accepted or fails at any point.
    pub append_keeps-Holds :
        (prefix : Text) (offset : ℕ) (content : Bytes) (u : ResumableUpload W O) (s : o.State)
        (contents : Bytes)
        → IsObjectStore o
        → IsSound u
        → Holds o prefix u s contents
        → Holds o prefix u (append o codec prefix offset content u s).2 contents
    append_keeps-Holds prefix offset content u s contents law sound h =
        append_cases o codec (λ r. Holds o prefix u r.2 contents) prefix offset content u s
          (record {
            refused = λ e k. h;
            unstored =
                λ a k. chunk_put-Holds o codec law prefix offset content u s contents sound h a;
            unsaved =
                λ a k l. state_put-Holds o codec law prefix offset content u s contents sound h a;
            taken =
                λ a k l. state_put-Holds o codec law prefix offset content u s contents sound h a;
          })

    -- An accepted append adds its bytes behind those of the upload.
    pub append-Holds :
        (prefix : Text) (offset : ℕ) (content : Bytes) (u : ResumableUpload W O) (s : o.State)
        (contents : Bytes) (n : ℕ)
        → IsObjectStore o
        → IsSound u
        → Holds o prefix u s contents
        → (append o codec prefix offset content u s).0 ≡ ok n
        → Holds o prefix
            (append o codec prefix offset content u s).1
            (append o codec prefix offset content u s).2
            (contents ++ content)
    append-Holds prefix offset content u s contents n law sound h =
        append_cases o codec (λ r. r.0 ≡ ok n → Holds o prefix r.1 r.2 (contents ++ content)) prefix
          offset content u s
          (record {
            refused = λ e k m. cc;
            unstored = λ a k m. cc;
            unsaved = λ a k l m. cc;
            taken = λ a k l m.
                extended-Holds o codec law prefix offset content u s contents sound h a k;
          })

    -- An append that is accepted is one at the upload's own offset, with bytes that fit, and the
    -- new offset is the one it returns, behind those bytes.
    pub append_accepted :
        (prefix : Text) (offset : ℕ) (content : Bytes) (u : ResumableUpload W O) (s : o.State)
        (n : ℕ)
        → (append o codec prefix offset content u s).0 ≡ ok n
        → Admitted o codec offset content u
          × (n ≡ u.offset + length content)
          × ((append o codec prefix offset content u s).1.offset ≡ n)
    append_accepted prefix offset content u s n =
        append_cases o codec
          (λ r.
            r.0 ≡ ok n
            → Admitted o codec offset content u
              × (n ≡ u.offset + length content)
              × (r.1.offset ≡ n))
          prefix offset content u s
          (record {
            refused = λ e k m. cc;
            unstored = λ a k m. cc;
            unsaved = λ a k l m. cc;
            taken =
                λ a k l m. let same = a.in_order in (a, ground (arith, same, m), ground (arith, m));
          })

    -- An append that is refused, for any reason but a failure of the store, changes neither the
    -- upload nor the store.
    pub append_refused :
        (prefix : Text) (offset : ℕ) (content : Bytes) (u : ResumableUpload W O) (s : o.State)
        (e : ResumableUploadError)
        → e ≢ internal
        → (append o codec prefix offset content u s).0 ≡ err e
        → ((append o codec prefix offset content u s).1 ≡ u)
          × ((append o codec prefix offset content u s).2 ≡ s)
    append_refused prefix offset content u s e outside =
        append_cases o codec (λ r. r.0 ≡ err e → (r.1 ≡ u) × (r.2 ≡ s)) prefix offset content u s
          (record {
            refused = λ d k m. (refl, refl);
            unstored = λ a k m. ground (arith, outside, m);
            unsaved = λ a k l m. ground (arith, outside, m);
            taken = λ a k l m. cc;
          })

    -- One request after the other on the upload as it was last saved, with the bytes of those that
    -- were accepted.
    abbrev followed :
        ResumableUpload W O
        → Bytes
        → Bytes
        → Result ℕ × ResumableUpload W O × o.State
        → ResumableUpload W O × o.State × Bytes
    followed u contents content (ok n, v, t) = (v, t, contents ++ content)
    followed u contents content (err e, v, t) = (u, t, contents)

    unfoldable pub uploaded :
        Text
        → List (ℕ × Bytes)
        → ResumableUpload W O × o.State × Bytes
        → ResumableUpload W O × o.State × Bytes
    uploaded prefix [] w = w
    uploaded prefix ((offset, content) ∷ rest) (u, s, contents) =
        uploaded prefix rest
          (followed u contents content (append o codec prefix offset content u s))

    append-total :
        (prefix : Text) (offset : ℕ) (content : Bytes) (u : ResumableUpload W O) (s : o.State)
        → (append o codec prefix offset content u s).1.total_size ≡ u.total_size
    append-total prefix offset content u s =
        append_cases o codec (λ r. r.1.total_size ≡ u.total_size) prefix offset content u s
          (record {
            refused = λ e k. refl;
            unstored = λ a k. refl;
            unsaved = λ a k l. refl;
            taken = λ a k l. refl;
          })

    followed-total :
        (u : ResumableUpload W O) (contents content : Bytes)
        (r : Result ℕ × ResumableUpload W O × o.State)
        → r.1.total_size ≡ u.total_size
        → (followed u contents content r).0.total_size ≡ u.total_size
    followed-total u contents content (ok n, v, t) h = h
    followed-total u contents content (err e, v, t) h = refl

    uploaded-total :
        (prefix : Text) (requests : List (ℕ × Bytes)) (w : ResumableUpload W O × o.State × Bytes)
        → (uploaded prefix requests w).0.total_size ≡ w.0.total_size
    unfolding uploaded
    uploaded-total prefix [] w = refl
    uploaded-total prefix ((offset, content) ∷ rest) (u, s, contents) =
        uploaded-total prefix rest _
        ∙ followed-total u contents content (append o codec prefix offset content u s)
            (append-total prefix offset content u s)

    IsGood : Text → ResumableUpload W O × o.State × Bytes → Type 0
    IsGood prefix w = IsSound w.0 × Holds o prefix w.0 w.1 w.2

    followed-IsGood :
        (prefix : Text) (u : ResumableUpload W O) (contents content : Bytes)
        (r : Result ℕ × ResumableUpload W O × o.State)
        → IsSound r.1
        → IsSound u
        → Holds o prefix u r.2 contents
        → ((n : ℕ) → r.0 ≡ ok n → Holds o prefix r.1 r.2 (contents ++ content))
        → IsGood prefix (followed u contents content r)
    unfolding IsGood
    followed-IsGood prefix u contents content (ok n, v, t) sv su h k = (sv, k n refl)
    followed-IsGood prefix u contents content (err e, v, t) sv su h k = (su, h)

    uploaded-IsGood :
        (prefix : Text) (requests : List (ℕ × Bytes)) (w : ResumableUpload W O × o.State × Bytes)
        → IsObjectStore o
        → IsGood prefix w
        → IsGood prefix (uploaded prefix requests w)
    unfolding IsGood uploaded
    uploaded-IsGood prefix [] w law h = h
    uploaded-IsGood prefix ((offset, content) ∷ rest) (u, s, contents) law (sound, h) =
        uploaded-IsGood prefix rest _ law (
          followed-IsGood prefix u contents content (append o codec prefix offset content u s)
            (append-IsSound o codec prefix offset content u s sound) sound
            (append_keeps-Holds prefix offset content u s contents law sound h)
            (λ n k. append-Holds prefix offset content u s contents n law sound h k))

  assemble-Holds :
      (prefix : Text) (u : ResumableUpload W O) (s : o.State) (contents : Bytes)
      → IsSound u
      → Holds o prefix u s contents
      → u.offset ≡ u.total_size
      → assemble o u s ≡ ok contents
  unfolding assemble
  assemble-Holds prefix u s contents sound h complete =
      elim (Bool-cases (u.offset == u.total_size)) [
        | inl e ↦ rw e (
            rw h.gathered (
              of_length-ok u.total_size contents (
                omega (
                  arith,
                  length-gather o u.chunks contents s h.gathered,
                  sound.chunks_length,
                  complete,
                ))))
        | inr e ↦ ground arith
      ]

  -- Whatever appends are made on a new upload, one after the other and each on the upload as the
  -- last accepted one left it, with whatever failures of the store, once its offset is its total
  -- length it assembles to the bytes of the accepted appends.
  pub upload_roundtrip :
      (codec : Codec W O) (prefix id : Text) (now : ℕ) (filename : Text)
      (content_type : Option Text) (total_size : ℕ) (object_key : Text) (options : O) (owner : Text)
      (queue_weight : W) (requests : List (ℕ × Bytes)) (s : o.State)
      → IsObjectStore o
      → total_size < 2 ^ 64
      → (uploaded codec prefix requests (
        new id now filename content_type total_size object_key options owner queue_weight,
        s,
        [],
      )).0.offset
        ≡ total_size
      → assemble o
          (uploaded codec prefix requests (
            new id now filename content_type total_size object_key options owner queue_weight,
            s,
            [],
          )).0
          (uploaded codec prefix requests (
            new id now filename content_type total_size object_key options owner queue_weight,
            s,
            [],
          )).1
        ≡ ok
            (uploaded codec prefix requests (
              new id now filename content_type total_size object_key options owner queue_weight,
              s,
              [],
            )).2
  unfolding IsGood new gather
  upload_roundtrip codec prefix id now filename content_type total_size object_key options owner
        queue_weight requests s law small complete =
      let fresh =
        new id now filename content_type total_size object_key options owner queue_weight in
      let good =
        uploaded-IsGood codec prefix requests (fresh, s, []) law
          (
            record { chunks_length = refl; in_total = omega arith; u64 = small },
            record { own_chunks = tt; gathered = refl },
          ) in
      assemble-Holds prefix _ _ _ good.0 good.1
        (complete ∙ sym (uploaded-total codec prefix requests (fresh, s, [])))
