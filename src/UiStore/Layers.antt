-- ===== src/UiStore/Layers.antt =====
-- The layers of web/src/stores/ui.ts, against the sets of layers as functions.
use mathlib.Core.Logic.{if_pos, if_neg}
use tableverse.Prelude.{
  ◌≡◌, ◌≢◌, refl, sym, ap, ◌∙◌, List, [], ◌∷◌, Bool, true, false, not, ◌||◌, Bool-cases, ◌≟◌, ite,
  arith, inl, inr, if◌then◌else◌,
}
use tableverse.Prelude.Dict
use tableverse.Prelude.Dict.{
  Distinct, get-set_self, get-set_ne, get-delete_self, get-delete_ne, delete-Distinct, set-Distinct,
  has-of_none, has-of_some,
}
use tableverse.UiStore.{LayerName, UiState, Page, initial_ui}
use tableverse.UiStore.Actions.{
  layer_key, Preset, preset_layers, set_of, toggle_layer, is_layer_active, set_layer_preset,
}

pub data LayerAction : Type 0 where
  toggle : LayerName → LayerAction
  preset : Preset → LayerAction

abbrev LayerSet : Type 0
LayerSet = List (LayerName × Unit {0})

unfoldable pub one_of : List LayerName → LayerName → Bool
one_of [] k = false
one_of (l ∷ ls) k = ite (k ≟ l) true (one_of ls k)

-- What an action does to the set of active layers.
unfoldable pub flip : (LayerName → Bool) → LayerAction → LayerName → Bool
flip f (toggle l) k = ite (k ≟ l) (not (f k)) (f k)
flip f (preset p) k = one_of (preset_layers p) k

unfoldable pub flip_all : (LayerName → Bool) → List LayerAction → LayerName → Bool
flip_all f [] = f
flip_all f (a ∷ actions) = flip_all (flip f a) actions

has-set :
    (k l : LayerName) (m : LayerSet)
    → Dict.has k (Dict.set l tt m) ≡ ite (k ≟ l) true (Dict.has k m)
unfolding Dict.has Dict.set
has-set k l [] = refl
has-set k l ((c, v) ∷ m) = ground (arith, has-set k l m)

has-delete_ne :
    (k l : LayerName) (m : LayerSet) → k ≢ l → Dict.has k (Dict.delete l m) ≡ Dict.has k m
unfolding Dict.has Dict.delete
has-delete_ne k l [] h = refl
has-delete_ne k l ((c, v) ∷ m) h = ground (arith, has-delete_ne k l m h)

has-delete :
    (k l : LayerName) (m : LayerSet)
    → Distinct m
    → Dict.has k (Dict.delete l m) ≡ ite (k ≟ l) false (Dict.has k m)
has-delete k l m d = elim (k ≟ l) [
  | yes e ↦ rw e (has-of_none l _ (get-delete_self l m d) ∙ sym (if_pos (l ≟ l) refl _ _))
  | no e ↦ has-delete_ne k l m e ∙ sym (if_neg (k ≟ l) e _ _)
]

-- Toggling on the set at hand.
toggle_lem :
    (k l : LayerName) (m : LayerSet)
    → Distinct m
    → Dict.has k (if Dict.has l m then Dict.delete l m else Dict.set l tt m)
      ≡ ite (k ≟ l) (not (Dict.has k m)) (Dict.has k m)
toggle_lem k l m d = elim (Bool-cases (Dict.has l m)) [
  | inl on ↦ rw on (ground (arith, on, has-delete k l m d, ap (λ j. Dict.has j m)))
  | inr off ↦ rw off (ground (arith, off, has-set k l m))
]

has-set_of :
    (k : LayerName) (m : LayerSet) (ls : List LayerName)
    → Dict.has k (set_of m ls) ≡ (Dict.has k m || one_of ls k)
unfolding set_of one_of
has-set_of k m [] = elim (Bool-cases (Dict.has k m)) [ inl h ↦ rw h refl | inr h ↦ rw h refl ]
has-set_of k m (l ∷ ls) = ground (arith, has-set_of k (Dict.set l tt m) ls, has-set k l m)

set_of-Distinct : (m : LayerSet) (ls : List LayerName) → Distinct m → Distinct (set_of m ls)
unfolding set_of
set_of-Distinct m [] d = d
set_of-Distinct m (l ∷ ls) d = set_of-Distinct (Dict.set l tt m) ls (set-Distinct l tt m d)

flip-cong :
    (f g : LayerName → Bool) (a : LayerAction) (k : LayerName) → f k ≡ g k → flip f a k ≡ flip g a k
unfolding flip
flip-cong f g (toggle l) k h = rw h refl
flip-cong f g (preset p) k h = refl

flip_all-cong :
    (f g : LayerName → Bool) (actions : List LayerAction) (k : LayerName)
    → f k ≡ g k
    → flip_all f actions k ≡ flip_all g actions k
unfolding flip_all
flip_all-cong f g [] k h = h
flip_all-cong f g (a ∷ actions) k h =
    flip_all-cong (flip f a) (flip g a) actions k (flip-cong f g a k h)

module _ {Value : Type 0} where
  unfoldable pub act_layers : UiState Value → LayerAction → UiState Value
  act_layers s (toggle l) = toggle_layer s l
  act_layers s (preset p) = set_layer_preset s p

  unfoldable pub run_layers : UiState Value → List LayerAction → UiState Value
  run_layers s [] = s
  run_layers s (a ∷ actions) = run_layers (act_layers s a) actions

  act_layers-Distinct :
      (s : UiState Value) (a : LayerAction)
      → Distinct s.active_layers
      → Distinct (act_layers s a).active_layers
  unfolding act_layers toggle_layer set_layer_preset
  act_layers-Distinct s (toggle l) d = elim (Bool-cases (Dict.has l s.active_layers)) [
    | inl on ↦ rw on (delete-Distinct l s.active_layers d)
    | inr off ↦ rw off (set-Distinct l tt s.active_layers d)
  ]
  act_layers-Distinct s (preset p) d = set_of-Distinct [] (preset_layers p) tt

  is_layer_active-act_layers :
      (s : UiState Value) (a : LayerAction) (k : LayerName)
      → Distinct s.active_layers
      → is_layer_active (act_layers s a) k ≡ flip (is_layer_active s) a k
  unfolding act_layers toggle_layer set_layer_preset is_layer_active flip one_of Dict.has
  is_layer_active-act_layers s (toggle l) k d = toggle_lem k l s.active_layers d
  is_layer_active-act_layers s (preset p) k d = has-set_of k [] (preset_layers p)

  is_layer_active-run_from :
      (s : UiState Value) (actions : List LayerAction) (k : LayerName)
      → Distinct s.active_layers
      → is_layer_active (run_layers s actions) k ≡ flip_all (is_layer_active s) actions k
  unfolding run_layers flip_all
  is_layer_active-run_from s [] k d = refl
  is_layer_active-run_from s (a ∷ actions) k d =
      is_layer_active-run_from (act_layers s a) actions k (act_layers-Distinct s a d)
      ∙ flip_all-cong _ _ actions k (is_layer_active-act_layers s a k d)

-- From the first state, after any toggles and presets, a layer is active exactly if the last preset
-- has it and it was toggled evenly often since, or has it not and was toggled oddly often: as the
-- same actions say on functions from layers to Booleans.
pub is_layer_active-run_layers :
    (Value : Type 0) (page : Page) (actions : List LayerAction) (k : LayerName)
    → is_layer_active (run_layers (initial_ui {Value = Value} page) actions) k
      ≡ flip_all (λ l. false) actions k
unfolding initial_ui is_layer_active Dict.has
is_layer_active-run_layers Value page actions k =
    is_layer_active-run_from (initial_ui {Value = Value} page) actions k tt
