-- ===== src/Nanopb/Decoder/Safety/Defaults.antt =====
-- The functions that set defaults leave the stream alone.
use teta.Prelude.{ℕ, zero, suc, refl, false, not, ◌&&◌, ◌||◌, List, ◌==◌}
use teta.Nanopb.Memory.{read_pointer, write_bool}
use teta.Nanopb.Machine.{Machine, unfinished, on_memory}
use teta.Nanopb.Machine.Safety.{
  Steady, Steady-id, Steady-still, Steady-marked, Steady-then, Steady-if, Steady-choose,
  Steady-with,
}
use teta.Nanopb.Fields.{
  Field, Iter, current, atype, htype, ltype, ltype_extension, ltype_submessage, ltype_string,
  ltype_bytes, htype_optional, atype_static, atype_pointer,
}
use teta.Nanopb.Decoder.Walk.{each_extension, iter_from_extension, extension_found}
use teta.Nanopb.Decoder.Defaults.{
  init_data, static_default, pointer_default, has_count, extension_default, pb_field_set_to_default,
  pb_message_set_to_defaults, initialize_pointer_field,
}
use teta.Nanopb.Decoder.Safety.Walk.{over_message-Steady, each_extension-Steady}

init_data-Steady :
    (set_message : List Field → ℕ → Machine → Machine) (descriptor : ℕ → List Field) (iter : Iter)
    → ((fields : List Field) (p : ℕ) → Steady (set_message fields p))
    → Steady (init_data set_message descriptor iter)
unfolding init_data
init_data-Steady set_message descriptor iter h =
    Steady-if (ltype (current iter) == ltype_submessage) (h _ _) (
      Steady-if (not ((current iter).ptr == 0)) (Steady-still (λ w. refl))
        (Steady-still (λ w. refl)))

static_default-Steady :
    (set_message : List Field → ℕ → Machine → Machine) (descriptor : ℕ → List Field) (iter : Iter)
    → ((fields : List Field) (p : ℕ) → Steady (set_message fields p))
    → Steady (static_default set_message descriptor iter)
unfolding static_default
static_default-Steady set_message descriptor iter h =
    let init = init_data-Steady set_message descriptor iter h in
    Steady-choose (λ w. htype (current iter) == htype_optional && not (iter.p_size == iter.p_data))
      (Steady-then (Steady-still (λ w. refl)) init)
      (Steady-choose (λ w. has_count (current iter)) (Steady-still (λ w. refl)) init)

pointer_default-Steady : (iter : Iter) → Steady (pointer_default iter)
unfolding pointer_default
pointer_default-Steady iter = Steady-still (λ w. refl)

module _ (descriptor : ℕ → List Field) where
  extension_default-Steady :
      (set_field : Iter → Machine → Machine) (ext : ℕ)
      → ((i : Iter) → Steady (set_field i))
      → Steady (extension_default descriptor set_field ext)
  unfolding extension_default
  extension_default-Steady set_field ext h =
      Steady-then
        (Steady-still {f = on_memory (λ mem. write_bool mem (extension_found ext) false)}
          (λ w. refl))
        (Steady-with (λ w. iter_from_extension descriptor w.mem ext) set_field h)

  pub pb_field_set_to_default-Steady :
      (depth : ℕ) (iter : Iter) → Steady (pb_field_set_to_default descriptor depth iter)
  unfolding pb_field_set_to_default
  pb_field_set_to_default-Steady zero iter = Steady-marked unfinished
  pb_field_set_to_default-Steady (suc depth) iter =
      let inner = pb_field_set_to_default-Steady depth in
      Steady-choose (λ w. ltype (current iter) == ltype_extension)
        (Steady-with (λ w. read_pointer w.mem iter.p_data)
          (λ ext.
            each_extension (suc depth)
              (extension_default descriptor (pb_field_set_to_default descriptor depth)) ext)
          (λ ext.
            each_extension-Steady (suc depth) _ ext (λ e. extension_default-Steady _ e inner)))
        (Steady-choose (λ w. atype (current iter) == atype_static)
          (static_default-Steady _ descriptor iter
            (λ fields p. over_message-Steady _ fields p inner))
          (Steady-choose (λ w. atype (current iter) == atype_pointer) (pointer_default-Steady iter)
            Steady-id))

  pub pb_message_set_to_defaults-Steady :
      (depth : ℕ) (fields : List Field) (dest_struct : ℕ)
      → Steady (pb_message_set_to_defaults descriptor depth fields dest_struct)
  unfolding pb_message_set_to_defaults
  pb_message_set_to_defaults-Steady depth fields dest_struct =
      over_message-Steady _ fields dest_struct (pb_field_set_to_default-Steady depth)

  pub initialize_pointer_field-Steady :
      (depth p_item : ℕ) (field : Field)
      → Steady (initialize_pointer_field descriptor depth p_item field)
  unfolding initialize_pointer_field
  initialize_pointer_field-Steady depth p_item field =
      Steady-choose (λ w. ltype field == ltype_string || ltype field == ltype_bytes)
        (Steady-still (λ w. refl))
        (Steady-choose (λ w. ltype field == ltype_submessage)
          (Steady-then (Steady-still (λ w. refl))
            (pb_message_set_to_defaults-Steady depth _ p_item))
          Steady-id)
