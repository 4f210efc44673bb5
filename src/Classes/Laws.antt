-- ===== src/Classes/Laws.antt =====
-- What the daemon relies on when it resets outputs holds for every class of modules (src/modules).
use mtb_daemon.Base.{ℕ, ◌≡◌, refl, false, []}
use mtb_daemon.Server.{member}
use mtb_daemon.Daemon.Modules.{OutputLaws}
use mtb_daemon.Uni.Setting.{client_disconnected}
use mtb_daemon.Uni.Setters.Laws.{
  IsSettable, reset_outputs_of_client_gone, all_outputs_reset_gone, client_disconnected-IsSettable,
}
use mtb_daemon.Led.Handlers.{led_reset_outputs_of_client, led_output_setters, led_all_outputs_reset}
use mtb_daemon.Unis.Handlers.{
  unis_reset_outputs_of_client, unis_output_setters, unis_all_outputs_reset,
}
use mtb_daemon.Classes.{
  AnyModule, a_uni, a_unis, a_led, a_rc, a_plain, Setup, change, any_output_setters,
  any_reset_of_client, any_all_outputs_reset, class_ops,
}

-- A module with outputs is in the state that its handlers keep.
abbrev pub AreSettable : AnyModule → Type 0
AreSettable (a_uni m) = IsSettable m
AreSettable (a_unis m) = IsSettable m
AreSettable (a_led m) = IsSettable m
AreSettable (a_rc m) = Unit
AreSettable (a_plain m) = Unit

pub any_reset_gone :
    (c : ℕ) (m : AnyModule)
    → AreSettable m
    → member c (any_output_setters (any_reset_of_client c m)) ≡ false
unfolding led_reset_outputs_of_client led_output_setters unis_reset_outputs_of_client
    unis_output_setters
any_reset_gone c (a_uni m) h = reset_outputs_of_client_gone c m h
any_reset_gone c (a_unis m) h = reset_outputs_of_client_gone c m h
any_reset_gone c (a_led m) h = reset_outputs_of_client_gone c m h
any_reset_gone c (a_rc m) h = refl
any_reset_gone c (a_plain m) h = refl

pub any_all_gone : (m : AnyModule) → any_output_setters (any_all_outputs_reset m) ≡ []
unfolding led_all_outputs_reset led_output_setters unis_all_outputs_reset unis_output_setters
any_all_gone (a_uni m) = all_outputs_reset_gone m
any_all_gone (a_unis m) = all_outputs_reset_gone m
any_all_gone (a_led m) = all_outputs_reset_gone m
any_all_gone (a_rc m) = refl
any_all_gone (a_plain m) = refl

pub any_disconnected-AreSettable :
    (c : ℕ) (m : AnyModule)
    → AreSettable m
    → AreSettable (change (λ k n. client_disconnected c n) m)
any_disconnected-AreSettable c (a_uni m) h = client_disconnected-IsSettable c m h
any_disconnected-AreSettable c (a_unis m) h = client_disconnected-IsSettable c m h
any_disconnected-AreSettable c (a_led m) h = client_disconnected-IsSettable c m h
any_disconnected-AreSettable c (a_rc m) h = tt
any_disconnected-AreSettable c (a_plain m) h = tt

abbrev pub class_laws : (setup : Setup) → OutputLaws AnyModule ⦃ops = class_ops setup⦄
class_laws setup = record {
  IsWell = AreSettable;
  reset_outputs_of_client_gone = any_reset_gone;
  output_setters-all_outputs_reset = λ m h. any_all_gone m;
  client_disconnected-IsWell = any_disconnected-AreSettable;
}
