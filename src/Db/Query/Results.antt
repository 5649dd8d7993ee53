-- ===== src/Db/Query/Results.antt =====
-- Which of the results of a query are returned.
use clyman.Prelude.{
  ℕ, zero, suc, ◌+◌, pos, ltb_ℤ, ◌≡◌, ap, ◌∙◌, List, [], ◌∷◌, ◌++◌, map, take, append_assoc,
  append-nil, All, arith, true, false,
}
use clyman.Outcome.{Outcome}
use clyman.Floats.{Floats}
use clyman.Model.Object.{Object, new_object}
use clyman.Model.DataList.{DataList, add_object}
use clyman.Db.Bson.{Doc}
use clyman.Db.Core.{Mongo, Core, done}
use clyman.Db.Documents.{build_query_doc}
use clyman.Db.Read.{bson_to_obj3}
use clyman.Db.Query.{add_results, after_results, query_results, finished, object_query}

module _ (fl : Floats) {W : Type 0} (mongo : Mongo fl.Double W) where
  open fl use {Float, Double}

  -- Every result is the document of an object, which `read` gives.
  abbrev pub AllRead : (Doc Double → Object Float) → List (Doc Double) → Type 0
  AllRead read ds = All (λ d. bson_to_obj3 fl d (new_object fl) ≡ Outcome.ok (read d)) ds

  add_results_from :
      (read : Doc Double → Object Float) (m k processed : ℕ) (l : DataList (Object Float))
      (ds : List (Doc Double))
      → processed + k ≡ suc m
      → AllRead read ds
      → add_results fl mongo (pos m) processed l ds (done tt)
        ≡ (done tt, record l { objects = l.objects ++ map read (take k ds) })
  unfolding add_results add_object
  add_results_from read m zero p l [] h a = simp (append-nil)
  add_results_from read m (suc k) p l [] h a = simp (append-nil)
  add_results_from read m zero p l (d ∷ ds) h a =
      let e : ltb_ℤ (pos m) (pos p) ≡ true = ground arith in simp (e, append-nil)
  add_results_from read m (suc k) p l (d ∷ ds) h (a, rest) =
      let e : ltb_ℤ (pos m) (pos p) ≡ false = ground arith in
      simp (e, a)
        (add_results_from read m k (suc p) (add_object l (read d)) ds (omega arith) rest
          ∙ simp (append_assoc l.objects (read d ∷ []) (map read (take k ds))))

  -- A query for at most `m` results returns the first `m + 1` where there are so many, and all of them
  -- otherwise, each read and in their order, behind what the list held before.
  pub add_results-take :
      (read : Doc Double → Object Float) (m : ℕ) (l : DataList (Object Float))
      (ds : List (Doc Double))
      → AllRead read ds
      → add_results fl mongo (pos m) 0 l ds (done tt)
        ≡ (done tt, record l { objects = l.objects ++ map read (take (suc m) ds) })
  add_results-take read m l ds a = add_results_from read m (suc m) 0 l ds (omega arith) a

  query_results-take :
      (read : Doc Double → Object Float) (m : ℕ) (l : DataList (Object Float))
      (ds : List (Doc Double)) (c : Core W)
      → AllRead read ds
      → query_results fl mongo (pos m) l (done (record { results = ds; ends = done tt }), c)
        ≡ (Outcome.ok finished, (record l { objects = l.objects ++ map read (take (suc m) ds) }, c))
  unfolding query_results after_results
  query_results-take read m l ds c a =
      ap (after_results fl mongo c) (add_results-take read m l ds a)

  -- A query for at most `m` results searches once, by the document of the object that was asked for,
  -- and adds the first `m + 1` results where there are so many, and all of them otherwise, each read
  -- and in their order, behind what the list held before. Every result can be read, the manager has
  -- its connection, the pool gives one, and neither the search nor the cursor throws.
  pub object_query-take :
      (read : Doc Double → Object Float) (o : Object Float) (m : ℕ) (l : DataList (Object Float))
      (ds : List (Doc Double)) (c : Core W) (w w' : W)
      → AllRead read ds
      → c.initialized ≡ true
      → mongo.acquire c.world ≡ (done tt, w)
      → mongo.find (build_query_doc fl o) w ≡ (done (record { results = ds; ends = done tt }), w')
      → object_query fl mongo o (pos m) (l, c) ≡ (
        Outcome.ok tt,
        (record l { objects = l.objects ++ map read (take (suc m) ds) }, record c { world = w' }),
      )
  unfolding object_query
  object_query-take read o m l ds c w w' a hi ha hf =
      simp (hi, ha, hf)
        (simp (
          query_results-take read m l ds
            (record { failures = c.failures; initialized = true; world = w' }) a))
