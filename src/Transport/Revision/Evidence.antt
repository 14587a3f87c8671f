-- ===== src/Transport/Revision/Evidence.antt =====
-- The features of a fingerprint, from the tests of each answer.
use agent_perimeter.Prelude.{
  ℤ, ◌≡◌, refl, ◌∙◌, String, Bool, true, false, ◌||◌, Option, none, some, ◌∷◌, ◌++◌, contains,
  contains-append, has_key, subst, List, ◌==◌, string_eq, arith,
}
use agent_perimeter.Json.{Value, get_object, get_list}
use agent_perimeter.Model.Feature.{
  Feature, server_discover, result_type, cacheable_result, param_headers, extensions,
  initialize_handshake, feature_eq,
}
use agent_perimeter.Transport.{Reply, ok, error, raises, Result, value, thrown, Transport}
use agent_perimeter.Transport.Revision.{
  has_extensions, annotated_listing, when, listing_features, observed_features, Claimed,
  Fingerprint, initialized, claimed_from, claimed_revision, settle, settled, observe, fingerprint,
}

-- What the listing shows, from its three tests.
abbrev pub by_keys : Feature → Bool → Bool → Bool → Bool
by_keys result_type typed cached annotated = typed
by_keys cacheable_result typed cached annotated = cached
by_keys param_headers typed cached annotated = annotated
by_keys f typed cached annotated = false

abbrev pub shown_by_listing : Feature → Reply → Bool
shown_by_listing f (ok listing) =
    by_keys f (has_key "resultType" listing)
      (has_key "ttlMs" listing || has_key "cacheScope" listing)
      (annotated_listing (get_list "tools" listing))
shown_by_listing f reply = false

-- Of what is returned; nothing is said where an exception leaves.
abbrev pub Returns : {A : Type 0} → (A → Type 0) → Result A → Type 0
Returns P (value x) = P x
Returns P (thrown e) = Unit

contains-whens :
    (f : Feature) (a b c : Bool)
    → contains f (when a result_type ++ when b cacheable_result ++ when c param_headers)
      ≡ by_keys f a b c
contains-whens result_type a b c = ground arith
contains-whens cacheable_result a b c = ground arith
contains-whens param_headers a b c = ground arith
contains-whens _ a b c = ground arith

contains-observed_features :
    (f : Feature) (l : Reply)
    → Returns (λ fs. contains f fs ≡ shown_by_listing f l) (observed_features l)
unfolding observed_features listing_features
contains-observed_features f (error code) = refl
contains-observed_features f (raises e) = tt
contains-observed_features f (ok listing) =
    contains-whens f (has_key "resultType" listing)
      (has_key "ttlMs" listing || has_key "cacheScope" listing)
      (annotated_listing (get_list "tools" listing))

-- What server/discover shows, from whether it has extensions.
abbrev pub by_discover : Feature → Bool → Bool
by_discover server_discover extended = true
by_discover extensions extended = extended
by_discover f extended = false

contains-discovered :
    (f : Feature) (b : Bool) → contains f (server_discover ∷ when b extensions) ≡ by_discover f b
contains-discovered server_discover b = refl
contains-discovered extensions b = ground arith
contains-discovered _ b = ground arith

-- The replies, in the order of the requests; there is none to `initialize` where server/discover
-- was answered.
abbrev pub second_reply : {S : Type 0} → Transport S → Reply → S → Option Reply × S
second_reply t (ok answer) s = (none, s)
second_reply t (raises e) s = (none, s)
second_reply t (error code) s = let (reply, s') = t.request "initialize" none s in (some reply, s')

abbrev pub replies : {S : Type 0} → Transport S → S → Reply × Option Reply × Reply
replies t s =
    let (discover, s') = t.request "server/discover" none s in
    let (initialize, s'') = second_reply t discover s' in
    (discover, initialize, (t.request "tools/list" none s'').0)

abbrev pub shown_by_initialize : Feature → Option Reply → Bool
shown_by_initialize f (some (ok answer)) = f == initialize_handshake
shown_by_initialize f reply = false

abbrev pub shown_by_discover : Feature → Reply → Bool
shown_by_discover f (ok answer) = by_discover f (has_extensions (get_object "capabilities" answer))
shown_by_discover f reply = false

-- What the replies show of a feature.
abbrev pub shown : Feature → Reply × Option Reply × Reply → Bool
shown f (discover, initialize, listing) =
    (shown_by_discover f discover || shown_by_initialize f initialize) || shown_by_listing f listing

settled-shown :
    (f : Feature) (c : Claimed) (b : Bool) (l : Reply)
    → contains f c.observed ≡ b
    → Returns
        (λ (fp : Fingerprint). contains f fp.features ≡ (b || shown_by_listing f l))
        (settled c (observed_features l))
unfolding settle
settled-shown f c b l h = of_features (observed_features l) (contains-observed_features f l)
  where
    of_features :
        (r : Result (List Feature))
        → Returns (λ fs. contains f fs ≡ shown_by_listing f l) r
        → Returns
            (λ (fp : Fingerprint). contains f fp.features ≡ (b || shown_by_listing f l))
            (settled c r)
    of_features (thrown e) e' = tt
    of_features (value fs) e = contains-append f c.observed fs ∙ rw (h, e) refl

contains-initialized :
    (render : Value → String) (f : Feature) (code : Option ℤ) (reply : Reply)
    → Returns
        (λ (c : Claimed). contains f c.observed ≡ shown_by_initialize f (some reply))
        (initialized render code reply)
contains-initialized render f code (error e) = refl
contains-initialized render f code (raises e) = tt
contains-initialized render f code (ok answer) = ground arith

module _ (render : Value → String) {S : Type 0} (t : Transport S) where
  contains-claimed_from :
      (f : Feature) (d : Reply) (s : S)
      → Returns
          (λ (c : Claimed).
            contains f c.observed
            ≡ (shown_by_discover f d || shown_by_initialize f (second_reply t d s).0))
          (claimed_from render t d s).0
  unfolding claimed_from
  contains-claimed_from f (ok answer) s =
      contains-discovered f (has_extensions (get_object "capabilities" answer)) ∙ ground arith
  contains-claimed_from f (raises e) s = tt
  contains-claimed_from f (error code) s =
      contains-initialized render f code (t.request "initialize" none s).0

  claimed_from_state : (d : Reply) (s : S) → (claimed_from render t d s).1 ≡ (second_reply t d s).1
  unfolding claimed_from
  claimed_from_state (ok answer) s = refl
  claimed_from_state (raises e) s = refl
  claimed_from_state (error code) s = refl

  observe-shown :
      (f : Feature) (b : Bool) (r : Result Claimed) (s s' : S)
      → s ≡ s'
      → Returns (λ (c : Claimed). contains f c.observed ≡ b) r
      → Returns
          (λ (fp : Fingerprint).
            contains f fp.features ≡ (b || shown_by_listing f (t.request "tools/list" none s').0))
          (observe render t r s).0
  unfolding observe
  observe-shown f b (thrown e) s s' same h = tt
  observe-shown f b (value c) s s' same h =
      subst
        (λ (u : S).
          Returns
            (λ (fp : Fingerprint).
              contains f fp.features ≡ (b || shown_by_listing f (t.request "tools/list" none u).0))
            (settled c (observed_features (t.request "tools/list" none s).0)))
        same (settled-shown f c b (t.request "tools/list" none s).0 h)

  -- The tests of the answers are the features of the fingerprint.
  pub fingerprint-shown :
      (s : S) (f : Feature)
      → Returns
          (λ (fp : Fingerprint). contains f fp.features ≡ shown f (replies t s))
          (fingerprint render t s).0
  unfolding fingerprint claimed_revision
  fingerprint-shown s f =
      let (d, s') = t.request "server/discover" none s in
      let (claimed, s'') = claimed_from render t d s' in
      observe-shown f (shown_by_discover f d || shown_by_initialize f (second_reply t d s').0)
        claimed s'' (second_reply t d s').1 (claimed_from_state d s') (contains-claimed_from f d s')
