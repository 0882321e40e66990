-- ===== src/Stream/Framing/Steps.antt =====
-- One step of the loop that the streaming parsers of enclave/src/main.rs share, from a parser with no
-- pending bytes.
use proof_of_observation.Base.{
  suc, ◌<◌, ◌≡◌, refl, ap, ◌∙◌, false, Option, some, [], Bytes, arith, length, subst,
}
use proof_of_observation.Stream.Framing.{
  wait, item, Shorter, Framing, Progress, resume, round, loop, loop_fuel, push,
}

abbrev pub fresh : {S : Type 0} → S → Progress S
fresh s = record { pending = []; failed = false; state = s }

module _ {M S : Type 0} (f : Framing M) (on_item : S → M → Option S) where
  pub push-wait :
      (c : Bytes) (s : S)
      → f.step c ≡ wait
      → push f on_item c (fresh s) ≡ record { pending = c; failed = false; state = s }
  unfolding push loop round
  push-wait c s h = rw h refl

  pub push-item :
      (c r : Bytes) (m : M) (s s' : S)
      → f.step c ≡ item m r
      → on_item s m ≡ some s'
      → push f on_item c (fresh s) ≡ push f on_item r (fresh s')
  unfolding push loop round resume
  push-item c r m s s' h k =
      ap (λ v. round f on_item v c s (loop f on_item (length c))) h
      ∙ ap (λ o. resume f on_item o s (loop f on_item (length c) r)) k
      ∙ loop_fuel f on_item (length c) (suc (length r)) r s' less (omega arith)
    where
      less : length r < length c
      less = subst (λ v. Shorter v c) h (f.shorter c)
