-- ===== src/Stream/Kept.antt =====
-- The steps of the connection's task of src/connection.rs, one after the other, and what becomes of a stream.
use titan_rust_client.Base.{some, ℕ, List, [], ◌∷◌, arith}
use titan_rust_client.Notify.{Notify}
use titan_rust_client.Wire.{Api}
use titan_rust_client.Connection.{Shared}
use titan_rust_client.Connection.Tame.{Tame}
use titan_rust_client.Connection.Resume.Kept.{
  Held, Wired, Clashless, remove_and_end-Held, handle_server_message-Held, remap-Held,
}
use titan_rust_client.Stream.Task.{
  Background, message, resumed, resumed_late, gives_up, act, act_all,
}
use titan_rust_client.Stream.Task.{act-Tame}
use titan_rust_client.Connection.Tame.Late.{remap_late-Held}

-- In the steps of the task, no stream gets an id that another one still has.
abbrev pub Apart : {N : Notify} {api : Api} → List (Background api) → Shared N api → Type 0
Apart [] s = Unit {0}
Apart (resumed old_id new_id ∷ bs) s =
    Clashless old_id new_id s × Apart bs (act (resumed old_id new_id) s)
Apart (resumed_late old_id new_id ∷ bs) s =
    Clashless old_id (some new_id) s × Apart bs (act (resumed_late old_id new_id) s)
Apart (b ∷ bs) s = Apart bs (act b s)

module _ {N : Notify} {api : Api} where
  pub Tame-Wired : (s t : Shared N api) → Tame s t → Wired s → Wired t
  Tame-Wired s t tame w id stream at =
      let (old_id, before) = tame.fewer id stream at in
      let (own, here) = w old_id stream before in (own, omega (arith, here, tame.cells.slots))

  pub act_all-Held :
      {k : ℕ} (bs : List (Background api)) (s : Shared N api)
      → Wired s
      → Apart bs s
      → Held k s
      → Wired (act_all bs s) × Held k (act_all bs s)
  unfolding act_all act
  act_all-Held [] s w apart h = (w, h)
  act_all-Held (message m ∷ bs) s w apart h =
      act_all-Held bs _ (Tame-Wired s _ (act-Tame (message m) s) w) apart
        (handle_server_message-Held m s w h)
  act_all-Held (resumed o n ∷ bs) s w (first, apart) h =
      act_all-Held bs _ (Tame-Wired s _ (act-Tame (resumed o n) s) w) apart
        (remap-Held o n s first w h)
  act_all-Held (resumed_late o n ∷ bs) s w (first, apart) h =
      act_all-Held bs _ (Tame-Wired s _ (act-Tame (resumed_late o n) s) w) apart
        (remap_late-Held o n s first w h)
  act_all-Held (gives_up o ∷ bs) s w apart h =
      act_all-Held bs _ (Tame-Wired s _ (act-Tame (gives_up o) s) w) apart
        (remove_and_end-Held o s w h)
