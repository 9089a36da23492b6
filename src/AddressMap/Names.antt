-- ===== src/AddressMap/Names.antt =====
-- pygt1000/constants.py: the effect names and the suffixes of their tables, both ways.
use pygt.Base.{Text, text, [], ◌∷◌}
use pygt.Base.Dict.{Dict}

abbrev pub fx_to_table_suffix : Dict Text Text
fx_to_table_suffix =
    (text "AC GUITAR SIM", text "AGSim")
    ∷ (text "AC RESONANCE", text "AcReso")
    ∷ (text "AUTO WAH", text "AWah")
    ∷ (text "CHORUS", text "Chorus")
    ∷ (text "CLASSIC-VIBE", text "CVibe")
    ∷ (text "COMPRESSOR", text "Comp")
    ∷ (text "DEFRETTER", text "Defretter")
    ∷ (text "FEEDBACKER", text "Feedbacker")
    ∷ (text "FLANGER", text "Flanger")
    ∷ (text "HARMONIST", text "Harmonist")
    ∷ (text "HUMANIZER", text "Humanizer")
    ∷ (text "OCTAVE", text "Octave")
    ∷ (text "OVERTONE", text "Overtone")
    ∷ (text "PAN", text "Pan")
    ∷ (text "PHASER", text "Phaser")
    ∷ (text "PITCH SHIFTER", text "PitchShift")
    ∷ (text "RING MOD", text "RingMod")
    ∷ (text "ROTARY", text "Rotary")
    ∷ (text "SITAR SIM", text "SitarSim")
    ∷ (text "SLICER", text "Slicer")
    ∷ (text "SLOW GEAR", text "SlowGear")
    ∷ (text "SOUND HOLD", text "SoundHold")
    ∷ (text "S-BEND", text "SBend")
    ∷ (text "TOUCH WAH", text "TWah")
    ∷ (text "TREMOLO", text "Tremolo")
    ∷ (text "VIBRATO", text "Vibrato")
    ∷ (text "CHORUS BASS", text "ChorusBass")
    ∷ (text "FLANGER BASS", text "FlangerBass")
    ∷ (text "DISTORTION", text "Dist")
    ∷ (text "MASTERING FX", text "MasterFx")
    ∷ (text "DEFRETTER BASS", text "PatchFxDefretterBass")
    ∷ (text "OCTAVE BASS", text "PatchFxOctaveBass")
    ∷ (text "SLOW GEAR BASS", text "PatchFxSlowGearBass")
    ∷ (text "TOUCH WAH BASS", text "PatchFxTWahBass")
    ∷ []

-- `dict((v, k) for k, v in ...items())`, for a table whose suffixes are all different.
abbrev pub swap_pairs : Dict Text Text → Dict Text Text
swap_pairs [] = []
swap_pairs ((k, v) ∷ d) = (v, k) ∷ swap_pairs d

abbrev pub table_suffix_to_name : Dict Text Text
table_suffix_to_name = swap_pairs fx_to_table_suffix
