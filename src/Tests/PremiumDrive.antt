-- ===== src/Tests/PremiumDrive.antt =====
-- examples/chain.py: the chain of the preset PREMIUM DRIVE, as words and as blocks, and what the example does with it.
use pygt.Base.{◌≡◌, refl, ap, text, some, [], ◌∷◌, list_eq, list_beq, remove_all, Act, ◌>>>◌}
use pygt.Chain.{
  Blocks, effect, divider, nil, cons, Tokens, parse, parse_chain, serialize_chain, is_stop,
  divider_id,
}
use pygt.Device.Chains
use pygt.Facade.{Gt1000}
use pygt.Facade.Delegates.{read_chain, write_chain_from_txt, write_chain_from_obj}

abbrev my_txt_chain : Tokens
my_txt_chain =
    text "PEDALFX"
    ∷ text "COMPRESSOR"
    ∷ text "EQUALIZER3"
    ∷ text "FX1"
    ∷ text "FX2"
    ∷ text "DIVIDER1"
    ∷ text "DISTORTION1"
    ∷ text "SEND/RETURN1"
    ∷ text "AIRDPREAMP1"
    ∷ text "NOISESUPPRESSOR1"
    ∷ text "EQUALIZER1"
    ∷ text "BRANCHSPLIT1"
    ∷ text "DISTORTION2"
    ∷ text "SEND/RETURN2"
    ∷ text "AIRDPREAMP2"
    ∷ text "NOISESUPPRESSOR2"
    ∷ text "EQUALIZER2"
    ∷ text "MIXER1"
    ∷ text "EQUALIZER4"
    ∷ text "FOOTVOLUME"
    ∷ text "DELAY1"
    ∷ text "DELAY2"
    ∷ text "DELAY3"
    ∷ text "DELAY4"
    ∷ text "MASTERDELAY"
    ∷ text "FX3"
    ∷ text "FX4"
    ∷ text "CHORUS"
    ∷ text "LOOPER"
    ∷ text "REVERB"
    ∷ text "DIVIDER2"
    ∷ text "BRANCHSPLIT2"
    ∷ text "MIXER2"
    ∷ text "DIVIDER3"
    ∷ text "BRANCHSPLIT3"
    ∷ text "MIXER3"
    ∷ text "BYPASSMAINR"
    ∷ text "MAINSP.SIMULATORL"
    ∷ text "MAINSP.SIMULATORR"
    ∷ text "BYPASSMAINL"
    ∷ text "MAINOUTL"
    ∷ text "MAINOUTR"
    ∷ text "BYPASSSUBR"
    ∷ text "SUBSP.SIMULATORL"
    ∷ text "SUBSP.SIMULATORR"
    ∷ text "BYPASSSUBL"
    ∷ text "SUBOUTL"
    ∷ text "SUBOUTR"
    ∷ text "(RESERVED)"
    ∷ []

abbrev branch_a : Blocks
branch_a = cons (effect (text "DISTORTION1")) (
    cons (effect (text "SEND/RETURN1")) (
      cons (effect (text "AIRDPREAMP1"))
        (cons (effect (text "NOISESUPPRESSOR1")) (cons (effect (text "EQUALIZER1")) (nil)))))

abbrev branch_b : Blocks
branch_b = cons (effect (text "DISTORTION2")) (
    cons (effect (text "SEND/RETURN2")) (
      cons (effect (text "AIRDPREAMP2"))
        (cons (effect (text "NOISESUPPRESSOR2")) (cons (effect (text "EQUALIZER2")) (nil)))))

abbrev my_obj_chain : Blocks
my_obj_chain = cons (effect (text "PEDALFX")) (
    cons (effect (text "COMPRESSOR")) (
      cons (effect (text "EQUALIZER3")) (
        cons (effect (text "FX1")) (
          cons (effect (text "FX2")) (
            cons (divider (text "DIVIDER1") branch_a branch_b (text "MIXER1")) (
              cons (effect (text "EQUALIZER4")) (
                cons (effect (text "FOOTVOLUME")) (
                  cons (effect (text "DELAY1")) (
                    cons (effect (text "DELAY2")) (
                      cons (effect (text "DELAY3")) (
                        cons (effect (text "DELAY4")) (
                          cons (effect (text "MASTERDELAY")) (
                            cons (effect (text "FX3")) (
                              cons (effect (text "FX4")) (
                                cons (effect (text "CHORUS")) (
                                  cons (effect (text "LOOPER")) (
                                    cons (effect (text "REVERB")) (
                                      cons (divider (text "DIVIDER2") nil nil (text "MIXER2")) (
                                        cons (divider (text "DIVIDER3") nil nil (text "MIXER3")) (
                                          cons (effect (text "BYPASSMAINR")) (
                                            cons (effect (text "MAINSP.SIMULATORL")) (
                                              cons (effect (text "MAINSP.SIMULATORR")) (
                                                cons (effect (text "BYPASSMAINL")) (
                                                  cons (effect (text "MAINOUTL")) (
                                                    cons (effect (text "MAINOUTR")) (
                                                      cons (effect (text "BYPASSSUBR")) (
                                                        cons (effect (text "SUBSP.SIMULATORL")) (
                                                          cons (effect (text "SUBSP.SIMULATORR")) (
                                                            cons (effect (text "BYPASSSUBL")) (
                                                            cons (effect (text "SUBOUTL")) (
                                                            cons (effect (text "SUBOUTR")) (
                                                            cons (effect (text "(RESERVED)"))
                                                            (nil)))))))))))))))))))))))))))))))))

-- The calls of the example, between the opening and the closing of the ports.
unfoldable example : Act {0, 0} Gt1000 Unit
example = read_chain >>> λ txt_chain.
    write_chain_from_txt my_txt_chain >>> λ _. write_chain_from_obj my_obj_chain

txt_parsed : parse my_txt_chain ≡ some (my_obj_chain, [])
unfolding parse parse_chain is_stop list_beq divider_id remove_all
txt_parsed = refl

obj_serialized : serialize_chain my_obj_chain ≡ my_txt_chain
unfolding serialize_chain divider_id remove_all
obj_serialized = refl

-- Either form writes the same.
same_writes :
    (gt : Gt1000) → write_chain_from_obj my_obj_chain gt ≡ write_chain_from_txt my_txt_chain gt
unfolding write_chain_from_obj write_chain_from_txt Chains.write
same_writes gt = ap (λ tokens. write_chain_from_txt tokens gt) obj_serialized
