-- ===== src/Reactor/Options.antt =====
-- options.go. A Go int or duration that is only passed on is of a type `I` with its zero `i0`; a
-- protocol is of a type `P`, `none` is nil, and `default_protocol` is `&DefaultProtocol{}`.
use Prim.Native.String.{String}
use text.Mathlib.Text.{◌==◌ as str_eq}
use goreactor.Common.{ℕ, ◌*◌, Bool, false, List, [], ◌∷◌, Option, some, none, ◌≡◌, refl, ap}
use goreactor.Common.{◌==◌, if◌then◌else◌}

pub record Options (I P : Type 0) : Type 0 where
  pub network : String
  pub address : String
  pub num_loops : I
  pub reuse_port : Bool
  pub idle_time : I
  pub protocol : Option P
  pub tick : ℕ
  pub wheel_size : ℕ

-- `type Option`: the functions `Network`, `Address` and so on with their arguments.
pub data Setting (I P : Type 0) : Type 0 where
  network : String → Setting I P
  address : String → Setting I P
  num_loops : I → Setting I P
  reuse_port : Bool → Setting I P
  idle_time : I → Setting I P
  custom_protocol : Option P → Setting I P

unfoldable pub or_default : {P : Type 0} → P → Option P → Option P
or_default default_protocol none = some default_protocol
or_default default_protocol (some p) = some p

module _ {I P : Type 0} where
  -- What the function does to the options.
  unfoldable pub apply : Setting I P → Options I P → Options I P
  apply (network n) o = record o { network = n }
  apply (address a) o = record o { address = a }
  apply (num_loops n) o = record o { num_loops = n }
  apply (reuse_port b) o = record o { reuse_port = b }
  apply (idle_time t) o = record o { idle_time = t }
  apply (custom_protocol p) o = record o { protocol = p }

  unfoldable pub apply_all : List (Setting I P) → Options I P → Options I P
  apply_all [] o = o
  apply_all (s ∷ ss) o = apply_all ss (apply s o)

  -- The five tests of `newOptions`; a millisecond is 1000000 nanoseconds.
  unfoldable pub fill_in : P → Options I P → Options I P
  fill_in default_protocol o = record {
    network = if str_eq o.network "" then "tcp" else o.network;
    address = if str_eq o.address "" then ":12345" else o.address;
    num_loops = o.num_loops;
    reuse_port = o.reuse_port;
    idle_time = o.idle_time;
    protocol = or_default default_protocol o.protocol;
    tick = if o.tick == 0 then 1 * 1000000 else o.tick;
    wheel_size = if o.wheel_size == 0 then 1000 else o.wheel_size;
  }

  -- `newOptions`
  unfoldable pub new_options : I → P → List (Setting I P) → Options I P
  new_options i0 default_protocol opt = fill_in default_protocol (
      apply_all opt (record {
        network = "";
        address = "";
        num_loops = i0;
        reuse_port = false;
        idle_time = i0;
        protocol = none;
        tick = 0;
        wheel_size = 0;
      }))

  -- The last argument given for an option, or else `x`.
  unfoldable pub last_network : String → List (Setting I P) → String
  last_network x [] = x
  last_network x (network n ∷ ss) = last_network n ss
  last_network x (_ ∷ ss) = last_network x ss

  unfoldable pub last_address : String → List (Setting I P) → String
  last_address x [] = x
  last_address x (address n ∷ ss) = last_address n ss
  last_address x (_ ∷ ss) = last_address x ss

  unfoldable pub last_num_loops : I → List (Setting I P) → I
  last_num_loops x [] = x
  last_num_loops x (num_loops n ∷ ss) = last_num_loops n ss
  last_num_loops x (_ ∷ ss) = last_num_loops x ss

  unfoldable pub last_reuse_port : Bool → List (Setting I P) → Bool
  last_reuse_port x [] = x
  last_reuse_port x (reuse_port n ∷ ss) = last_reuse_port n ss
  last_reuse_port x (_ ∷ ss) = last_reuse_port x ss

  unfoldable pub last_idle_time : I → List (Setting I P) → I
  last_idle_time x [] = x
  last_idle_time x (idle_time n ∷ ss) = last_idle_time n ss
  last_idle_time x (_ ∷ ss) = last_idle_time x ss

  unfoldable pub last_protocol : Option P → List (Setting I P) → Option P
  last_protocol x [] = x
  last_protocol x (custom_protocol p ∷ ss) = last_protocol p ss
  last_protocol x (_ ∷ ss) = last_protocol x ss

  apply_all_lem :
      (ss : List (Setting I P)) (o : Options I P)
      → apply_all ss o ≡ record {
        network = last_network o.network ss;
        address = last_address o.address ss;
        num_loops = last_num_loops o.num_loops ss;
        reuse_port = last_reuse_port o.reuse_port ss;
        idle_time = last_idle_time o.idle_time ss;
        protocol = last_protocol o.protocol ss;
        tick = o.tick;
        wheel_size = o.wheel_size;
      }
  unfolding apply_all apply last_network last_address last_num_loops last_reuse_port last_idle_time
      last_protocol
  apply_all_lem [] o = refl
  apply_all_lem (network n ∷ ss) o = apply_all_lem ss (record o { network = n })
  apply_all_lem (address a ∷ ss) o = apply_all_lem ss (record o { address = a })
  apply_all_lem (num_loops n ∷ ss) o = apply_all_lem ss (record o { num_loops = n })
  apply_all_lem (reuse_port b ∷ ss) o = apply_all_lem ss (record o { reuse_port = b })
  apply_all_lem (idle_time t ∷ ss) o = apply_all_lem ss (record o { idle_time = t })
  apply_all_lem (custom_protocol p ∷ ss) o = apply_all_lem ss (record o { protocol = p })

  -- `newOptions` takes for each option the last argument it was given, and where that is missing
  -- or the zero value the default: "tcp", ":12345", the default protocol; the tick is one
  -- millisecond and the wheel has 1000 slots whatever is given.
  pub new_options_lem :
      (i0 : I) (default_protocol : P) (opt : List (Setting I P))
      → new_options i0 default_protocol opt ≡ record {
        network = if str_eq (last_network "" opt) "" then "tcp" else last_network "" opt;
        address = if str_eq (last_address "" opt) "" then ":12345" else last_address "" opt;
        num_loops = last_num_loops i0 opt;
        reuse_port = last_reuse_port false opt;
        idle_time = last_idle_time i0 opt;
        protocol = or_default default_protocol (last_protocol none opt);
        tick = 1000000;
        wheel_size = 1000;
      }
  unfolding new_options fill_in
  new_options_lem i0 default_protocol opt = ap (fill_in default_protocol) (apply_all_lem opt _)
