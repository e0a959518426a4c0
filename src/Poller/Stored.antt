-- ===== src/Poller/Stored.antt =====
-- A plan from the hub survives a reboot.
use cardiag.Base.{
  ==_iff, Bool, List, [], ap, arith, false, if_split, leb, length, ltb, none, not, refl, some, suc,
  sym, true, ℕ, ◌&&◌, ◌<◌, ◌==◌, ◌∙◌, ◌∷◌, ◌≡◌, ◌≤◌,
}
use cardiag.PollPlan.{PollEntry, plan_valid}
use cardiag.PollPlan.Codec.{
  poll_plan_encode, poll_plan_decode, poll_plan_decode-poll_plan_encode, length-poll_plan_encode,
}
use cardiag.PollPlan.Hash.{poll_plan_hash}
use cardiag.PollPlan.Contract.{
  PlanResult, poll_plan_parse, plan_ok, plan_malformed, plan_invalid, plan_no_fuel,
}
use cardiag.PollPlan.Contract.Accepted.{poll_plan_parse-plan_valid}
use cardiag.Poller.{
  pollplan_blob_max, Poller, poller_zero, Preferences, load_nvs, save_nvs, poller_begin,
  poller_enter, SetResult, adopt, set_plan, poller_set_from_json, applied, queue_of, stored_blob,
}

-- What the key-value store documents: a write that says it stored all the bytes stored them under
-- the key, and a key that was removed is gone.
pub record Keeps {S : Type 0} (prefs : Preferences S) : Type 0 where
  pub put :
      (s : S) (b : List ℕ)
      → (prefs.put_bytes s b).0 ≡ length b
      → (prefs.is_key (prefs.put_bytes s b).1 ≡ true)
        × (prefs.get_bytes_length (prefs.put_bytes s b).1 ≡ length b)
        × (prefs.get_bytes (prefs.put_bytes s b).1 (length b) ≡ b)
  pub removed : (s : S) → (prefs.remove s).0 ≡ true → prefs.is_key (prefs.remove s).1 ≡ false

abbrev fresh : Bool → Poller
fresh created = record poller_zero { q = queue_of created none }

abbrev holding : Bool → List PollEntry → Poller
holding created plan = record (fresh created) {
  plan = plan;
  has_plan = ltb 0 (length plan);
  nvs_ok = true;
}

module _ {S : Type 0} (prefs : Preferences S) (k : Keeps prefs) where
  -- A store without the key has no plan.
  load-none :
      (s : S) (created : Bool)
      → prefs.begin s ≡ true
      → prefs.is_key s ≡ false
      → load_nvs prefs s (fresh created) ≡ holding created []
  unfolding load_nvs
  load-none s created b i = rw (b, i) refl

  stored-some :
      (s : S) (blob : List ℕ)
      → prefs.is_key s ≡ true
      → prefs.get_bytes_length s ≡ length blob
      → prefs.get_bytes s (length blob) ≡ blob
      → 0 < length blob
      → length blob ≤ pollplan_blob_max
      → stored_blob prefs s ≡ some blob
  stored-some s blob i n g l m =
      let t : ((ltb 0 (length blob) && leb (length blob) pollplan_blob_max)
            && length blob == length blob)
          ≡ true =
        ground arith in
      rw (i, n, g, t) refl

  -- A store that holds an encoded plan has that plan.
  load-some :
      (s : S) (created : Bool) (e : PollEntry) (es : List PollEntry) (blob : List ℕ)
      → poll_plan_decode blob ≡ some (e ∷ es)
      → prefs.begin s ≡ true
      → stored_blob prefs s ≡ some blob
      → load_nvs prefs s (fresh created) ≡ holding created (e ∷ es)
  unfolding load_nvs
  load-some s created e es blob d b i =
      let t : ltb 0 (suc (length es)) ≡ true = ground arith in rw (b, i, d, t) refl

  -- What is found after a call of `saveNvs` that came to `r`.
  Found : Bool → List PollEntry → Bool × S → Type 0
  Found created plan r =
      r.0 ≡ true
      → prefs.begin r.1 ≡ true
      → load_nvs prefs r.1 (fresh created) ≡ holding created plan

  save-Found :
      (s : S) (created : Bool) (plan : List PollEntry)
      → plan_valid plan ≡ true
      → Found created plan (save_nvs prefs s plan)
  unfolding save_nvs Found
  save-Found s created [] v =
      if_split (Found created []) (not (prefs.begin s)) (λ x y z. absurd (ground arith))
        (λ x.
          if_split (Found created []) (not (prefs.is_key s))
            (λ i y z. load-none s created z (ground arith))
            (λ i y z. load-none (prefs.remove s).1 created z (k.removed s y)))
  save-Found s created (e ∷ es) v =
      let blob = poll_plan_encode (e ∷ es) pollplan_blob_max in
      let (n, l) = length-poll_plan_encode (e ∷ es) pollplan_blob_max v (omega arith) in
      let t : (length (e ∷ es) == 0) ≡ false = ground arith in
      if_split (Found created (e ∷ es)) (not (prefs.begin s)) (λ x y z. absurd (ground arith))
        (λ x. rw t (
          if_split (Found created (e ∷ es)) (length blob == 0) (λ i y z. absurd (ground arith))
            (λ i y z.
              let (key, size, same) =
                k.put s blob ((==_iff (prefs.put_bytes s blob).0 (length blob)).0 y) in
              load-some (prefs.put_bytes s blob).1 created e es blob
                (poll_plan_decode-poll_plan_encode (e ∷ es) pollplan_blob_max v (omega arith)) z
                (stored-some (prefs.put_bytes s blob).1 blob key size same (omega arith)
                  (omega arith)))))

  adopt-plan :
      (p : Poller) (plan : List PollEntry) (now : ℕ)
      → ((adopt p plan now).plan ≡ plan) × ((adopt p plan now).has_plan ≡ ltb 0 (length plan))
  unfolding adopt poller_enter
  adopt-plan p plan now = ground arith

  -- What holds after a reboot, when `pollerSetFromJson` came to `x`.
  Kept : Bool → List ℕ → SetResult × S × Poller → Type 0
  Kept created hash x =
      x.0 ≡ applied hash
      → prefs.begin x.1 ≡ true
      → let b = load_nvs prefs x.1 (fresh created) in
        (b.plan ≡ x.2.plan)
        × (b.has_plan ≡ x.2.has_plan)
        × (b.nvs_ok ≡ true)
        × (poll_plan_hash b.plan ≡ hash)

  set_plan-Kept :
      (s : S) (p : Poller) (x : PlanResult) (hash : List ℕ) (now : ℕ) (created : Bool)
      → ((l : List PollEntry) → x ≡ plan_ok l → plan_valid l ≡ true)
      → Kept created hash (set_plan prefs s p x now)
  unfolding set_plan Found Kept
  set_plan-Kept s p (plan_ok l) hash now created v =
      if_split (Kept created hash) (not (save_nvs prefs s l).0) (λ e h z. absurd (ground arith))
        (λ e h z.
          let found = save-Found s created l (v l refl) (ground arith) z in
          let (same, has) = adopt-plan p l now in
          let plan = ap (λ (b : Poller). b.plan) found in
          (
            plan ∙ sym same,
            ap (λ (b : Poller). b.has_plan) found ∙ sym has,
            ap (λ (b : Poller). b.nvs_ok) found,
            ap poll_plan_hash plan ∙ ground arith,
          ))
  set_plan-Kept s p plan_malformed hash now created v = λ h z. absurd (ground arith)
  set_plan-Kept s p (plan_invalid x) hash now created v = λ h z. absurd (ground arith)
  set_plan-Kept s p plan_no_fuel hash now created v = λ h z. absurd (ground arith)

  -- A plan that `pollerSetFromJson` applied is stored: when the firmware boots from that store, the
  -- poller has the same plan, says whether it has one as before, vouches for it, and its hash is
  -- the one that was returned.
  pub set_from_json-poller_begin :
      (s : S) (p : Poller) (json hash : List ℕ) (now : ℕ) (created : Bool)
      → (poller_set_from_json prefs s p json now).0 ≡ applied hash
      → prefs.begin (poller_set_from_json prefs s p json now).1 ≡ true
      → let x = poller_set_from_json prefs s p json now in
        let b = poller_begin prefs x.1 created poller_zero in
        (b.plan ≡ x.2.plan)
        × (b.has_plan ≡ x.2.has_plan)
        × (b.nvs_ok ≡ true)
        × (poll_plan_hash b.plan ≡ hash)
  unfolding poller_set_from_json poller_begin Kept
  set_from_json-poller_begin s p json hash now created =
      set_plan-Kept s p (poll_plan_parse json) hash now created
        (λ l e. (poll_plan_parse-plan_valid json l e).0)
